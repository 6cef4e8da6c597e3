-- ===== src/Taint/Order.antt =====
-- internal/core/tainted.go: what the order of the calls of a chat decides.
use atenea.Prelude.{
  Bool, true, false, ◌≡◌, refl, List, [], ◌∷◌, arith, All, keep, not, if◌then◌else◌,
}
use atenea.Contract.Capability.{Capability}
use atenea.Taint.{observing, acting, refuse_if_tainted, note, opened, passed}

-- No call acts.
abbrev pub Harmless : List Capability → Type 0
Harmless = All (λ c. acting c ≡ false)

-- After a call that looked, no call acts.
abbrev pub NoActAfterLook : List Capability → Type 0
NoActAfterLook [] = Unit
NoActAfterLook (c ∷ cs) = (observing c.id ≡ true → Harmless cs) × NoActAfterLook cs

-- What the guard lets through, said without its state: everything up to and with the first look,
-- then what does not act.
abbrev pub until_look : List Capability → List Capability
until_look [] = []
until_look (c ∷ cs) =
    if observing c.id then c ∷ keep (λ d. not (acting d)) cs else c ∷ until_look cs

passed-tainted :
    (cs : List Capability)
    → passed (record { read = true; permitted = false }) cs ≡ keep (λ d. not (acting d)) cs
unfolding passed refuse_if_tainted note
passed-tainted [] = refl
passed-tainted (c ∷ cs) = ground (arith, passed-tainted cs)

passed-fresh : (cs : List Capability) → passed (opened false) cs ≡ until_look cs
unfolding passed refuse_if_tainted note opened
passed-fresh [] = refl
passed-fresh (c ∷ cs) = ground (arith, passed-fresh cs, passed-tainted cs)

passed-permitted :
    (read : Bool) (cs : List Capability) → passed (record { read = read; permitted = true }) cs ≡ cs
unfolding passed refuse_if_tainted note
passed-permitted read [] = refl
passed-permitted read (c ∷ cs) = ground (arith, passed-permitted read cs, passed-permitted true cs)

keep-Harmless : (cs : List Capability) → Harmless (keep (λ d. not (acting d)) cs)
keep-Harmless [] = tt
keep-Harmless (c ∷ cs) = ground (arith, keep-Harmless cs)

Harmless-NoActAfterLook : (cs : List Capability) → Harmless cs → NoActAfterLook cs
Harmless-NoActAfterLook [] h = tt
Harmless-NoActAfterLook (c ∷ cs) h = (λ e. h.1, Harmless-NoActAfterLook cs h.1)

until_look-NoActAfterLook : (cs : List Capability) → NoActAfterLook (until_look cs)
until_look-NoActAfterLook [] = tt
until_look-NoActAfterLook (c ∷ cs) = ground (
  arith,
  keep-Harmless cs,
  Harmless-NoActAfterLook (keep (λ d. not (acting d)) cs),
  until_look-NoActAfterLook cs,
)

-- In a chat that settings do not permit to look and act: no call passes the guard that acts after a
-- passed call that looked. The guard refuses nothing else: up to and with the first look every call
-- passes, and after it every call that does not act. Where settings permit it, every call passes.
pub passed_lem :
    (cs : List Capability)
    → NoActAfterLook (passed (opened false) cs)
      × (passed (opened false) cs ≡ until_look cs)
      × (passed (opened true) cs ≡ cs)
unfolding opened
passed_lem cs = (
  rw (passed-fresh cs) (until_look-NoActAfterLook cs),
  passed-fresh cs,
  passed-permitted false cs,
)
