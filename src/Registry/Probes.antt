-- ===== src/Registry/Probes.antt =====
-- internal/registry/registry.go: what a probe that `SetHealth` records changes for the readers.
use mathlib.Core.Path.{subst}
use atenea.Prelude.Str.{Str, str_eq, str_eq_iff, str_eq_refl}
use atenea.Prelude.Float.{nan}
use atenea.Prelude.{
  ℕ, true, false, ◌&&◌, Option, some, ◌≡◌, refl, sym, ap, ◌∙◌, List, [], ◌∷◌, if◌then◌else◌, map,
  lookup, insert, lookup-insert, arith,
}
use atenea.Contract.Implementation.{Implementation, Health}
use atenea.Contract.Validate.{validate_implementation, bad_score}
use atenea.Registry.{Registry, Refusal, unavailable, known}
use atenea.Registry.Steps.{set_health-recorded}
use atenea.Registry.Observed.{
  StateFile, persist_observed, recorded, persisted, set_health, observe_health, dated, observed_in,
  observed_health, overlay, with_health,
}

map-overlay_nil : (is : List Implementation) → map (overlay []) is ≡ is
unfolding overlay lookup
map-overlay_nil [] = refl
map-overlay_nil (i ∷ is) = ap (λ js. i ∷ js) (map-overlay_nil is)

shortcut-map :
    (m : List (Str × Health)) (is : List Implementation)
    → elim m as (λ m. List Implementation) [ [] ↦ is | e ∷ es ↦ map (overlay (e ∷ es)) is ]
      ≡ map (overlay m) is
shortcut-map [] is = sym (map-overlay_nil is)
shortcut-map (e ∷ es) is = refl

-- `Observed` without its shortcut for a repository nobody probed.
observed_health-map :
    (r : Registry) (p : Str) (is : List Implementation)
    → observed_health r p is ≡ map (overlay (observed_in p r)) is
unfolding observed_health
observed_health-map r p is = shortcut-map (observed_in p r) is

overlay-insert :
    (k : Str) (h : Health) (m : List (Str × Health)) (i : Implementation)
    → overlay (insert k h m) i ≡ (if str_eq k i.id then with_health h i else overlay m i)
unfolding overlay
overlay-insert k h m i = ground (arith, lookup-insert k i.id h m)

observed_in-observe :
    (r : Registry) (p i : Str) (h : Health) (q : Str)
    → observed_in q (observe_health r p i h)
      ≡ (if str_eq p q then insert i h (observed_in p r) else observed_in q r)
unfolding observe_health
observed_in-observe r p i h q =
    ground (arith, lookup-insert p q (insert i h (observed_in p r)) r.observed)

-- One implementation read with another health, and the rest as they are.
abbrev pub replaced : Str → Health → Implementation → Implementation
replaced k h i = if str_eq k i.id then with_health h i else i

overlay-replaced :
    (k : Str) (h : Health) (m : List (Str × Health)) (i : Implementation)
    → overlay (insert k h m) i ≡ replaced k h (overlay m i)
unfolding overlay
overlay-replaced k h m i = ground (arith, lookup-insert k i.id h m)

map-overlay-insert :
    (k : Str) (h : Health) (m : List (Str × Health)) (is : List Implementation)
    → map (overlay (insert k h m)) is ≡ map (replaced k h) (map (overlay m) is)
map-overlay-insert k h m [] = refl
map-overlay-insert k h m (i ∷ is) = cc (overlay-replaced k h m i, map-overlay-insert k h m is)

observed_in-same :
    (r : Registry) (p i : Str) (h : Health)
    → observed_in p (observe_health r p i h) ≡ insert i h (observed_in p r)
observed_in-same r p i h = ground (arith, observed_in-observe r p i h p, str_eq_refl p)

observe-same :
    (r : Registry) (p i : Str) (h : Health) (is : List Implementation)
    → observed_health (observe_health r p i h) p is ≡ map (replaced i h) (observed_health r p is)
observe-same r p i h is =
    rw
      (
        observed_health-map (observe_health r p i h) p is,
        observed_health-map r p is,
        observed_in-same r p i h,
      )
      (map-overlay-insert i h (observed_in p r) is)

observe-other :
    (r : Registry) (p i : Str) (h : Health) (q : Str) (is : List Implementation)
    → str_eq p q ≡ false
    → observed_health (observe_health r p i h) q is ≡ observed_health r q is
observe-other r p i h q is ne =
    let t : observed_in q (observe_health r p i h) ≡ observed_in q r =
      ground (arith, observed_in-observe r p i h q) in
    rw (observed_health-map (observe_health r p i h) q is, observed_health-map r q is, t) refl

-- Where `SetHealth` records an observation, whether the write of the state file fails or not, any
-- candidates read for the probed repository are those read before, but that the probed
-- implementation has the recorded health, dated now where it had no date; and candidates read for
-- any other repository are read as before.
pub set_health_lem :
    (now : ℕ) (f : StateFile) (r s : Registry) (p i : Str) (h : Health) (e : Option Refusal)
    (is : List Implementation)
    → set_health now f r p i h ≡ recorded s e
    → (observed_health s p is ≡ map (replaced i (dated now h)) (observed_health r p is))
      × ((q : Str) → str_eq p q ≡ false → observed_health s q is ≡ observed_health r q is)
set_health_lem now f r s p i h e is was =
    let (same, w) = set_health-recorded now f r s p i h e was in
    subst
      (λ s.
        (observed_health s p is ≡ map (replaced i (dated now h)) (observed_health r p is))
        × ((q : Str) → str_eq p q ≡ false → observed_health s q is ≡ observed_health r q is))
      same (observe-same r p i (dated now h) is, λ q ne. observe-other r p i (dated now h) q is ne)

dated-score : (now : ℕ) (h : Health) → (dated now h).score ≡ h.score
unfolding dated
dated-score now h = ground arith

set_health-records :
    (now : ℕ) (f : StateFile) (r : Registry) (p i : Str) (h : Health)
    → known i r.implementers ≡ true
    → known p r.repositories ≡ true
    → h.score ≡ nan
    → set_health now f r p i h ≡ persisted f (observe_health r p i (dated now h))
unfolding set_health
set_health-records now f r p i h ki kp hn = ground arith

observe-one :
    (r : Registry) (p i : Str) (h : Health) (j : Implementation)
    → j.id ≡ i
    → observed_health (observe_health r p i h) p (j ∷ []) ≡ with_health h j ∷ []
observe-one r p i h j own =
    rw (observed_health-map (observe_health r p i h) p (j ∷ []), observed_in-same r p i h)
      (ap (λ k. k ∷ []) (ground (arith, overlay-insert i h (observed_in p r) j, str_eq_iff i j.id)))

validate-nan : (i : Implementation) → i.health.score ≡ nan → validate_implementation i ≡ false
unfolding validate_implementation bad_score
validate-nan i hn = ground arith

-- The catalog holds a score of NaN for this pair of a repository and an implementation.
abbrev HoldsNan : Str → Str → Registry → Type 0
HoldsNan p i r = (h : Health) × (lookup i (observed_in p r) ≡ some h) × (h.score ≡ nan)

-- `encoding/json` encodes no NaN.
abbrev pub RefusesNan : StateFile → Type 0
RefusesNan f =
    (r : Registry) (p i : Str) (h : Health)
    → lookup i (observed_in p r) ≡ some h
    → h.score ≡ nan
    → f.encodes r.observed ≡ false

observe-HoldsNan :
    (r : Registry) (p i : Str) (h : Health) → h.score ≡ nan → HoldsNan p i (observe_health r p i h)
observe-HoldsNan r p i h hn = (
  h,
  rw (observed_in-same r p i h)
      (ground (arith, lookup-insert i i h (observed_in p r), str_eq_refl i)),
  hn,
)

-- An observation of another pair keeps it.
keeps-HoldsNan :
    (r : Registry) (p i q k : Str) (g : Health)
    → (str_eq q p && str_eq k i) ≡ false
    → HoldsNan p i r
    → HoldsNan p i (observe_health r q k g)
keeps-HoldsNan r p i q k g other (h, e, hn) = (
  h,
  grind (
    arith,
    observed_in-observe r q k g p,
    str_eq_iff q p,
    lookup-insert k i g (observed_in p r),
    e,
  ),
  hn,
)

persist-nan :
    (f : StateFile) (r : Registry) (p i : Str)
    → str_eq f.path [] ≡ false
    → RefusesNan f
    → HoldsNan p i r
    → persist_observed f r ≡ some unavailable
unfolding persist_observed
persist-nan f r p i there refuses (h, e, hn) = ground (arith, refuses r p i h e hn)

-- A call of `SetHealth` that records something for another pair, and a sequence of such calls.
pub data Other (f : StateFile) (p i : Str) (r s : Registry) (e : Option Refusal) : Type 0 where
  records :
      (now : ℕ) (q k : Str) (g : Health)
      → (str_eq q p && str_eq k i) ≡ false
      → set_health now f r q k g ≡ recorded s e
      → Other f p i r s e

pub data Others (f : StateFile) (p i : Str) (r : Registry) : Registry → Type 0 where
  start : Others f p i r r
  one_more :
      {s t : Registry} {e : Option Refusal}
      → Others f p i r s
      → Other f p i s t e
      → Others f p i r t

Other-HoldsNan :
    {f : StateFile} {p i : Str} {r s : Registry} {e : Option Refusal}
    → HoldsNan p i r
    → Other f p i r s e
    → HoldsNan p i s × (persist_observed f s ≡ e)
Other-HoldsNan {f} {p} {i} {r} {s} {e} held (records now q k g other was) =
    let (same, w) = set_health-recorded now f r s q k g e was in
    (subst (HoldsNan p i) same (keeps-HoldsNan r p i q k (dated now g) other held), w)

Others-HoldsNan :
    {f : StateFile} {p i : Str} {r s : Registry}
    → HoldsNan p i r
    → Others f p i r s
    → HoldsNan p i s
Others-HoldsNan held start = held
Others-HoldsNan held (one_more calls last) =
    let (h, w) = Other-HoldsNan (Others-HoldsNan held calls) last in h

stuck :
    (f : StateFile) (p i : Str) (t u : Registry) (e : Option Refusal)
    → str_eq f.path [] ≡ false
    → RefusesNan f
    → HoldsNan p i t
    → Other f p i t u e
    → e ≡ some unavailable
stuck f p i t u e there refuses held c =
    let (h, w) = Other-HoldsNan held c in sym w ∙ persist-nan f u p i there refuses h

-- Let the catalog have a state file whose encoding refuses NaN, as `encoding/json` does, and let
-- `SetHealth` be called on a health whose score is NaN, for a registered implementation and a
-- registered repository. Then it returns an error, and it records the health all the same:
-- `Observed` reads it for this implementation, and `Validate` refuses what is read. After any number
-- of calls of `SetHealth` that record something for another implementation or another repository,
-- each further such call returns an error too.
pub set_health-nan :
    (now : ℕ) (f : StateFile) (r : Registry) (p i : Str) (h : Health) (j : Implementation)
    → str_eq f.path [] ≡ false
    → RefusesNan f
    → known i r.implementers ≡ true
    → known p r.repositories ≡ true
    → h.score ≡ nan
    → j.id ≡ i
    → (s : Registry) × (set_health now f r p i h ≡ recorded s (some unavailable))
      × (observed_health s p (j ∷ []) ≡ with_health (dated now h) j ∷ [])
      × (validate_implementation (with_health (dated now h) j) ≡ false)
      × ((t u : Registry) (e : Option Refusal)
          → Others f p i s t
          → Other f p i t u e
          → e ≡ some unavailable)
set_health-nan now f r p i h j there refuses ki kp hn own =
    let s = observe_health r p i (dated now h) in
    let held : HoldsNan p i s = observe-HoldsNan r p i (dated now h) (dated-score now h ∙ hn) in
    (
      s,
      set_health-records now f r p i h ki kp hn
          ∙ ap (recorded s) (persist-nan f s p i there refuses held),
      observe-one r p i (dated now h) j own,
      validate-nan (with_health (dated now h) j) (dated-score now h ∙ hn),
      λ t u e calls c. stuck f p i t u e there refuses (Others-HoldsNan held calls) c,
    )
