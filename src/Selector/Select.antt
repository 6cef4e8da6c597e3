-- ===== src/Selector/Select.antt =====
-- internal/selector/selector.go: `Select` and the quality evidence that it reads.
pub mod Laws
use atenea.Prelude.Int.{ℤ, pos}
use atenea.Prelude.Str.{Str, str_eq, trim_space}
use atenea.Prelude.{
  ℕ, Bool, true, false, not, ◌==◌, ltb, ◌&&◌, ◌||◌, List, [], ◌∷◌, ◌++◌, Option, none, some, map,
  any, if◌then◌else◌, lookup,
}
use atenea.Contract.Implementation.{Implementation, Repository}
use atenea.Selector.Quality.{Observation, tested, or_flag}
use atenea.Selector.Types.{
  Rule, Request, Stage, quality, choice, QualityState, wired, connected, QualityDetail, Decision,
  Notice, Settled, Selection, decided, failed, unknown_preference, no_candidates, none_fits,
  none_reachable, all_down,
}
use atenea.Selector.Funnel.{ids, filter_constraints, filter_reach, filter_health}
use atenea.Selector.Choose.{choose}

-- A selector, and what its methods reach outside this code: the hash behind
-- `implementationConfigDigest`, the canonical root behind `repositoryScope`, and the table of the
-- quality book by capability, scope, implementation, language, version, instance and digest.
-- `durable` says that the book has a path.
pub record Selector : Type 0 where
  pub rules : List Rule
  pub health_stale_after : ℤ
  pub digest : Implementation → Str
  pub scope : Repository → Str
  pub snapshot_version : Str → Str → Str → Str → Str → Str → Str → Option Observation
  pub minimum_samples : ℕ
  pub durable : Bool

-- A missing key of a `map[string]string` reads as the empty text.
abbrev text_at : Str → List (Str × Str) → Str
text_at k m = elim (lookup k m) [ none ↦ [] | some v ↦ v ]

unfoldable pub implementation_config_digest : Selector → Implementation → Str
implementation_config_digest s i = if str_eq i.config_digest [] then s.digest i else i.config_digest

unfoldable pub observed_digest : Selector → Request → Implementation → Str
observed_digest s req i =
    let configured = text_at i.id req.observed_config_digests in
    if str_eq configured [] then implementation_config_digest s i else configured

-- One turn of the loop of `qualityFor`.
unfoldable pub quality_of : Selector → Request → Implementation → Option Observation
quality_of s req i =
    let version = text_at i.id req.observed_versions in
    let instance_id = text_at i.id req.observed_instances in
    let digest = observed_digest s req i in
    elim (lookup i.id req.quality) [
      | some q ↦ some q
      | none ↦
          if str_eq version [] || (str_eq instance_id [] || str_eq digest [])
          then none
          else s.snapshot_version req.capability (s.scope req.repository) i.id req.language version
              instance_id digest
    ]

unfoldable pub quality_for : Selector → Request → List Implementation → List (Str × Observation)
quality_for s req [] = []
quality_for s req (i ∷ rest) =
    let others = quality_for s req rest in
    elim (quality_of s req i) [ none ↦ others | some q ↦ (i.id, q) ∷ others ]

-- The state of one survivor in the quality stage.
unfoldable pub quality_state :
    Selector → Request → Implementation → Option Observation → QualityState
quality_state s req i q =
    let seen =
      if not (str_eq (text_at i.id req.observed_versions) [])
        && not (str_eq (text_at i.id req.observed_instances) [])
      then connected
      else wired in
    elim q [
      | none ↦ seen
      | some o ↦ if tested o s.minimum_samples then QualityState.tested else seen
    ]

abbrev count : (Observation → ℕ) → Option Observation → ℕ
count f none = 0
count f (some o) = f o

unfoldable pub quality_detail :
    Selector → Request → List (Str × Observation) → Implementation → QualityDetail
quality_detail s req observations i =
    let q = lookup i.id observations in
    record {
      implementation = i.id;
      state = quality_state s req i q;
      language = req.language;
      tool_version = text_at i.id req.observed_versions;
      instance_id = text_at i.id req.observed_instances;
      config_digest = observed_digest s req i;
      samples = count (λ o. if o.total == 0 then o.samples else o.total) q;
      valid = count (λ o. o.valid_count) q;
      accepted = count (λ o. or_flag o.accepted_count o.accepted) q;
      complete = count (λ o. or_flag o.complete_count o.complete) q;
      partial = count (λ o. o.partial_count) q;
      truncated = count (λ o. or_flag o.truncated_count o.truncated) q;
      out_of_scope = elim q [ none ↦ pos 0 | some o ↦ o.out_of_scope ];
      failures = count (λ o. o.failure_count) q;
    }

unfoldable pub quality_stage :
    Selector → Request → List Implementation → List (Str × Observation) → Stage
quality_stage s req survivors observations = record {
  name = quality;
  input = ids survivors;
  output = ids survivors;
  dropped = [];
  details = map (quality_detail s req observations) survivors;
}

abbrev pub is_empty {ℓ} : {A : Type ℓ} → List A → Bool
is_empty [] = true
is_empty (q ∷ qs) = false

-- The test of `Select` on a preference: it names no candidate, by id or by provider.
unfoldable pub names_nobody : Str → List Implementation → Bool
names_nobody preferred candidates =
    not (str_eq preferred [])
    && not (any (λ i. str_eq i.id preferred || str_eq i.provider preferred) candidates)

-- The stages of a decision: the quality stage stands if there is evidence or a durable book.
unfoldable pub all_stages :
    Selector → Request → List Implementation → List Stage → Implementation → List Stage
all_stages s req survivors stages chosen =
    let evidence = quality_for s req survivors in
    (if not (is_empty evidence) || s.durable
      then stages ++ quality_stage s req survivors evidence ∷ []
      else stages)
    ++ record {
      name = choice;
      input = ids survivors;
      output = chosen.id ∷ [];
      dropped = [];
      details = [];
    }
      ∷ []

unfoldable pub decision_of :
    Selector
    → Request
    → List Implementation
    → List Stage
    → Implementation
    → Settled
    → List Notice
    → Decision
decision_of s req survivors stages chosen reason notices = record {
  capability = req.capability;
  repository = req.repository.id;
  chosen = chosen;
  reason = reason;
  notices = notices;
  stages = all_stages s req survivors stages chosen;
}

-- The part of `Select` behind the three gates. Its first case stands for the index out of range on
-- an empty ranking, which survivors exclude.
unfoldable pub select_survivors : Selector → Request → List Implementation → List Stage → Selection
select_survivors s req survivors stages =
    elim (choose s.rules req (trim_space req.prefer) survivors (quality_for s req survivors)
      s.minimum_samples) [
        | none ↦ failed all_down stages
        | some (chosen, reason, notices) ↦
            decided (decision_of s req survivors stages chosen reason notices)
      ]

-- `Select`; `now` is the clock that the health stage reads.
unfoldable pub select : Selector → ℕ → Request → Selection
select s now req =
    let (fitting, constraint_stage) = filter_constraints req req.candidates in
    let (within, reach_stage) = filter_reach req fitting in
    let (usable, health_stage) = filter_health now s.health_stale_after within in
    if names_nobody (trim_space req.prefer) req.candidates
    then failed unknown_preference []
    else if is_empty req.candidates
    then failed no_candidates []
    else if is_empty fitting
    then failed none_fits (constraint_stage ∷ [])
    else if is_empty within
    then failed none_reachable (constraint_stage ∷ reach_stage ∷ [])
    else if is_empty usable
    then failed all_down (constraint_stage ∷ reach_stage ∷ health_stage ∷ [])
    else select_survivors s req usable (constraint_stage ∷ reach_stage ∷ health_stage ∷ [])
