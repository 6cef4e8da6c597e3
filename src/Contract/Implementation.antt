-- ===== src/Contract/Implementation.antt =====
-- pkg/contract/implementation.go and repository.go: an implementation's constraints, cost and
-- health, and a repository. Durations, token counts and sizes are signed; an instant is a number
-- of nanoseconds, 0 for Go's zero time. `Cost.Samples` and `Cost.Attempts` are counters from 0.
use atenea.Prelude.Int.{ℤ, pos, leb_ℤ, is_zero_ℤ}
use atenea.Prelude.Float.{Float64}
use atenea.Prelude.Str.{Str, str_eq}
use atenea.Prelude.{
  ℕ, ◌+◌, ◌-◌, Bool, true, false, not, ◌==◌, ltb, leb, ◌&&◌, ◌||◌, List, [], ◌∷◌, if◌then◌else◌,
  any,
}
use atenea.Contract.Enums.{Scale, Vcs, HealthState, health_down, state_eq, ScopeGuarantee}

pub record Constraints : Type 0 where
  pub languages : List Str
  pub requires_vcs : Bool
  pub min_scale : Scale
  pub max_scale : Scale
  pub max_input : List (Str × ℤ)

pub record Sample : Type 0 where
  pub duration : ℤ
  pub tokens : ℤ
  pub peak_rss : ℤ

pub record Cost : Type 0 where
  pub estimated : Sample
  pub measured : Sample
  pub samples : ℤ
  pub attempts : ℤ
  pub tool_version : Str

abbrev at_least_one : ℕ → ℕ
at_least_one n = if ltb n 1 then 1 else n

unfoldable pub has_measurements : ℕ → Cost → Bool
has_measurements at_least c = leb_ℤ (pos (at_least_one at_least)) c.samples

unfoldable pub barren : ℕ → Cost → Bool
barren at_least c = is_zero_ℤ c.samples && leb_ℤ (pos (at_least_one at_least)) c.attempts

unfoldable pub effective : ℕ → Cost → Sample
effective min_samples c = if has_measurements min_samples c then c.measured else c.estimated

pub record Health : Type 0 where
  pub state : HealthState
  pub score : Float64
  pub reason : Str
  pub raw : Str
  pub observed_at : ℕ

unfoldable pub usable : Health → Bool
usable h = not (state_eq h.state health_down)

-- `clock` is `time.Now()`, read when `now` is the zero time. The saturation of `Sub` at the
-- longest duration does not change the test, since no age limit is longer.
unfoldable pub stale : ℕ → Health → ℕ → ℤ → Bool
stale clock h now max_age =
    if leb_ℤ max_age (pos 0) || (h.observed_at == 0)
    then false
    else let t = if now == 0 then clock else now in
      ltb t h.observed_at || leb_ℤ max_age (pos (t - h.observed_at))

pub record Implementation : Type 0 where
  pub id : Str
  pub provider : Str
  pub config_digest : Str
  pub capability : Str
  pub constraints : Constraints
  pub cost : Cost
  pub health : Health
  pub scope_guarantee : ScopeGuarantee

pub record Repository : Type 0 where
  pub id : Str
  pub path : Str
  pub languages : List Str
  pub scale : Scale
  pub vcs : Vcs

-- `slices.Contains`
abbrev pub contains : Str → List Str → Bool
contains s = any (λ t. str_eq t s)

-- `strings.ToLower` on the names of languages, which are ASCII in the model.
abbrev pub to_lower : Str → Str
to_lower [] = []
to_lower (c ∷ s) = (if leb b'A' c && leb c b'Z' then c + 32 else c) ∷ to_lower s

unfoldable pub speaks_any : Repository → List Str → Bool
speaks_any r [] = true
speaks_any r (l ∷ ls) = any (λ want. contains (to_lower want) r.languages) (l ∷ ls)
