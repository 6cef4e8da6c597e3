-- ===== src/Orchestrator/Ask/Permit.antt =====
-- internal/orchestrator/orchestrator.go: what a question that went well was permitted to do, and did.
use mathlib.Core.List.{Perm}
use mathlib.Core.Path.{subst}
use atenea.Prelude.Str.{Str, codes}
use atenea.Prelude.{
  ◌≡◌, ◌≢◌, refl, ap, Bool, true, false, not, ◌||◌, List, [], ◌∷◌, ◌++◌, Option, none, some, any,
  All, ◌==◌, ==_iff, if◌then◌else◌, arith,
}
use atenea.Contract.Validate.{blank}
use atenea.Contract.Capability.{Effect, effect_read, effect_index, causes}
use atenea.Contract.Completeness.{verdict_ok}
use atenea.Contract.Plan.{grant_effects, grant}
use atenea.Orchestrator.Closing.{
  FailureKind, failure_invalid_input, failure_not_found, failure_unavailable, Surroundings,
}
use atenea.Orchestrator.Loop.{
  overall_verdict, Progress, complete, Dispatch, refused, ended, dispatch,
}
use atenea.Orchestrator.Ids.{without_share, steps_of}
use atenea.Orchestrator.Approval.{Passed, approved-Passed}
use atenea.Orchestrator.Ask.{
  floor_or, Question, Agent, with_budget, valid_grant, ask_step, ask_plan, validate_plan, Asked,
  ask_refused, invalid_plan, asked, asked_of, ask_repository, ask,
}

causes-append : (e : Effect) (l m : List Effect) → causes e (l ++ m) ≡ (causes e l || causes e m)
causes-append e [] m = refl
causes-append e (f ∷ l) m = ground (arith, causes-append e l m)

causes_same :
    (e f : Effect) (l : List Effect)
    → (effect_index f == effect_index e) ≡ true
    → causes f l ≡ causes e l
causes_same e f l h =
    ap (λ n. any (λ g. effect_index g == n) l) ((==_iff (effect_index f) (effect_index e)).0 h)

-- A grant holds what was held and what is added.
causes-grant_effects :
    (e : Effect) (more held : List Effect)
    → causes e (grant_effects more held) ≡ (causes e held || causes e more)
unfolding grant_effects
causes-grant_effects e [] held = ground arith
causes-grant_effects e (f ∷ more) held = ground (
  arith,
  causes-grant_effects e more (if causes f held then held else held ++ f ∷ []),
  causes-append e held (f ∷ []),
  causes_same e f held,
)

-- The question went to the repository that was found, within a budget that is an amount of money:
-- its step was closed, once and unchanged but for its share, and passed. The step may cause what
-- reads, what its floor or else the standing grant allows, and what the question asked for.
pub record Permitted (a : Agent) (env : Surroundings) (q : Question) (p : Progress) (id : Str)
    : Type 0 where
  pub found : a.repository q.repository ≡ some id
  pub funds : valid_grant q.budget_usd ≡ true
  pub one_step : Perm (steps_of p.closed) (without_share (ask_step a q id) ∷ [])
  pub passed : All (Passed (with_budget a q env)) p.closed
  pub permits :
      (e : Effect)
      → causes e (ask_step a q id).permission.effects ≡ (
          causes e (effect_read ∷ [])
          || (causes e (floor_or q.floor a.standing_effects) || causes e q.effects))

guarded :
    (no_capability no_repository bad_budget detached : Bool) (j k l m : FailureKind) (x y : Asked)
    → ((k' : FailureKind) → ask_refused k' ≢ y)
    → (if no_capability
        then ask_refused j
        else if no_repository
        then ask_refused k
        else if bad_budget
        then ask_refused l
        else if detached
        then ask_refused m
        else x)
      ≡ y
    → (bad_budget ≡ false) × (x ≡ y)
guarded true b c d j k l m x y n e = absurd (n j e)
guarded false true c d j k l m x y n e = absurd (n k e)
guarded false false true d j k l m x y n e = absurd (n l e)
guarded false false false true j k l m x y n e = absurd (n m e)
guarded false false false false j k l m x y n e = (refl, e)

repository-found :
    (o : Option Str) (k : FailureKind) (f : Str → Asked) (y : Asked)
    → ask_refused k ≢ y
    → elim o [ none ↦ ask_refused k | some id ↦ f id ] ≡ y
    → (id : Str) × (o ≡ some id) × (f id ≡ y)
repository-found none k f y n e = absurd (n e)
repository-found (some id) k f y n e = (id, refl, e)

asked_of-asked :
    (valid stopped : Bool) (d : Dispatch) (p : Progress)
    → (if valid then asked_of stopped d else invalid_plan) ≡ asked verdict_ok p complete
    → (d ≡ ended p complete) × (overall_verdict p.closed stopped ≡ verdict_ok)
asked_of-asked false stopped d p e = absurd (cc e)
asked_of-asked true stopped (refused l) p e = absurd (cc e)
asked_of-asked true stopped (ended q ending) p e =
    let same : q ≡ p = cc e in
    let end : ending ≡ complete = cc e in
    let verdict : overall_verdict q.closed stopped ≡ verdict_ok = cc e in
    (cc (same, end), subst (λ x. overall_verdict x.closed stopped ≡ verdict_ok) same verdict)

ask_step-effects :
    (a : Agent) (q : Question) (id : Str) (e : Effect)
    → causes e (ask_step a q id).permission.effects ≡ (
        causes e (effect_read ∷ [])
        || (causes e (floor_or q.floor a.standing_effects) || causes e q.effects))
unfolding ask_step grant
ask_step-effects a q id e =
    let floor = floor_or q.floor a.standing_effects in
    ground (
      arith,
      causes-grant_effects e q.effects (grant_effects floor (effect_read ∷ [])),
      causes-grant_effects e floor (effect_read ∷ []),
    )

-- Where Ask ends with no error and the verdict `ok`: the catalog found the repository, and the
-- budget asked for is an amount of money; one step was closed, that of the question, unchanged but
-- for its share of the budget; it passed; and the effects it was permitted are reading, those of the
-- question's floor, or of the standing grant where it has none, those that the question asks for,
-- and no other.
pub ask-Permitted :
    (a : Agent) (env : Surroundings) (stopped : Bool) (q : Question) (p : Progress)
    → ask a env stopped q ≡ asked verdict_ok p complete
    → (id : Str) × Permitted a env q p id
unfolding ask ask_repository ask_plan
ask-Permitted a env stopped q p e =
    let (funds, rest) =
      guarded (blank q.capability) (blank q.repository) (not (valid_grant q.budget_usd))
        (not a.attached) failure_invalid_input failure_invalid_input failure_invalid_input
        failure_unavailable _ (asked verdict_ok p complete) (λ k h. cc h) e in
    let (id, found, went) =
      repository-found (a.repository q.repository) failure_not_found
        (ask_repository a env stopped q) (asked verdict_ok p complete) (λ h. cc h) rest in
    let (ran, verdict) =
      asked_of-asked (validate_plan (ask_plan a q id)) stopped
        (dispatch (with_budget a q env) (ask_plan a q id) (codes "ask") [] [] []) p went in
    let (quiet, one, passed) =
      approved-Passed (with_budget a q env) (ask_plan a q id) (codes "ask") [] [] [] p stopped ran
        verdict in
    (
      id,
      record {
        found = found;
        funds = ground (arith, funds);
        one_step = one;
        passed = passed;
        permits = ask_step-effects a q id;
      },
    )
