-- ===== src/Selector/Types.antt =====
-- internal/selector/selector.go: rules, requests, and the trace of a decision. The sentences that
-- the source formats for a reader are values of the data types `Reason` and `Notice`, one
-- constructor for each format string, with what is put into it.
use atenea.Prelude.Int.{ℤ}
use atenea.Prelude.Str.{Str}
use atenea.Prelude.{ℕ, Bool, List}
use atenea.Contract.Enums.{Scale, HealthState}
use atenea.Contract.Implementation.{Implementation, Repository}
use atenea.Contract.Value.{Fields}
use atenea.Selector.Quality.{Observation}

pub record Rule : Type 0 where
  pub capability : Str
  pub repository : Str
  pub prefer : Str

pub record Request : Type 0 where
  pub capability : Str
  pub repository : Repository
  pub candidates : List Implementation
  pub reachable : List Str
  pub unreachable : List (Str × Str)
  pub measuring : Bool
  pub payload : Fields
  pub prefer : Str
  pub quality : List (Str × Observation)
  pub language : Str
  pub observed_versions : List (Str × Str)
  pub observed_instances : List (Str × Str)
  pub observed_config_digests : List (Str × Str)

-- Why an implementation leaves the funnel.
pub data Reason : Type 0 where
  speaks : List Str → List Str → Reason
  needs_vcs : Reason
  needs_bigger needs_smaller : Scale → Scale → Reason
  bounded_input : Str → ℤ → ℤ → Reason
  not_attached : Reason
  repository_scope : Str → Reason
  unhealthy : Str → Reason
  reported_down : Reason

-- `Drop`; the source's `Code` is told by the constructor of the reason.
pub record Drop : Type 0 where
  pub implementation : Str
  pub reason : Reason
  pub raw : Str

pub data StageName : Type 0 where
  constraints reach health quality choice : StageName

pub data QualityState : Type 0 where
  wired connected tested : QualityState

pub record QualityDetail : Type 0 where
  pub implementation : Str
  pub state : QualityState
  pub language : Str
  pub tool_version : Str
  pub instance_id : Str
  pub config_digest : Str
  pub samples : ℕ
  pub valid : ℕ
  pub accepted : ℕ
  pub complete : ℕ
  pub partial : ℕ
  pub truncated : ℕ
  pub out_of_scope : ℤ
  pub failures : ℕ

pub record Stage : Type 0 where
  pub name : StageName
  pub input : List Str
  pub output : List Str
  pub dropped : List Drop
  pub details : List QualityDetail

-- What settled the choice.
pub data Settled : Type 0 where
  one_call_preference : Str → Str → Settled
  user_rule : Str → Settled
  only_survivor healthiest best_quality : Settled
  break_in_turn : Str → ℤ → Settled
  ranks_on_estimate : Str → Str → ℤ → Settled
  cheapest_measured cheapest_estimated settled_by_id : Settled

pub data Notice : Type 0 where
  preference_skipped rule_skipped : Str → Notice
  takes_turn : Str → Str → HealthState → Notice

pub record Decision : Type 0 where
  pub capability : Str
  pub repository : Str
  pub chosen : Implementation
  pub reason : Settled
  pub notices : List Notice
  pub stages : List Stage

-- The failures of `Select`, each with the stages passed until then.
pub data SelectError : Type 0 where
  unknown_preference no_candidates none_fits none_reachable all_down : SelectError

pub data Selection : Type 0 where
  decided : Decision → Selection
  failed : SelectError → List Stage → Selection
