-- ===== src/Devices/Realm.antt =====
-- internal/core/device_ownership.go: the realm of a key, its text up to the third zero byte.
use atenea.Prelude.Str.{Str}
use atenea.Prelude.{
  ℕ, zero, suc, ◌≡◌, ◌≢◌, refl, ap, true, [], ◌∷◌, ◌++◌, arith, All, ◌==◌, if◌then◌else◌, ◌↔◌,
}
use mathlib.Core.List.{append_assoc}
use atenea.Devices.{DeviceArgs, device_realm, has_prefix}

-- A text up to and with its `n`-th zero byte.
pub up_to : ℕ → Str → Str
up_to zero s = []
up_to (suc n) [] = []
up_to (suc n) (c ∷ s) = c ∷ up_to (if c == 0 then n else suc n) s

-- The parts of a realm hold no zero byte.
abbrev pub NoZero : Str → Type 0
NoZero = All (λ c. c ≢ 0)

abbrev pub ZeroFree : DeviceArgs → Type 0
ZeroFree a = NoZero a.daemon_base_url × NoZero a.tenant × NoZero a.state_dir

up_to-part : (n : ℕ) (s t : Str) → NoZero s → up_to (suc n) (s ++ (0 ∷ t)) ≡ s ++ (0 ∷ up_to n t)
unfolding up_to
up_to-part n [] t h = refl
up_to-part n (c ∷ s) t (h, hs) = ground (arith, up_to-part n s t hs)

-- The realm of a key is the realm it was built from.
pub up_to-realm :
    (a : DeviceArgs) (s : Str) → ZeroFree a → up_to 3 (device_realm a ++ s) ≡ device_realm a
unfolding device_realm up_to
up_to-realm a s (h, k, l) =
    let base = a.daemon_base_url in
    let rest : Str = a.tenant ++ (0 ∷ (a.state_dir ++ (0 ∷ []))) in
    let dir : Str = a.state_dir ++ (0 ∷ []) in
    rw (append_assoc base (0 ∷ rest) s, up_to-part 2 base (rest ++ s) h)
      (ap (λ t. base ++ (0 ∷ t))
        (rw (append_assoc a.tenant (0 ∷ dir) s, up_to-part 1 a.tenant (dir ++ s) k)
          (ap (λ t. a.tenant ++ (0 ∷ t))
            (rw (append_assoc a.state_dir (0 ∷ []) s, up_to-part 0 a.state_dir s l) refl))))

-- Having a realm for a prefix is having it for a realm.
has_prefix-append : (s t : Str) → has_prefix (s ++ t) s ≡ true
unfolding has_prefix
has_prefix-append [] t = refl
has_prefix-append (c ∷ s) t = ground (arith, has_prefix-append s t)

up_to-prefix : (n : ℕ) (s : Str) → has_prefix s (up_to n s) ≡ true
unfolding has_prefix up_to
up_to-prefix zero s = refl
up_to-prefix (suc n) [] = refl
up_to-prefix (suc n) (c ∷ s) = ground (arith, up_to-prefix (if c == 0 then n else suc n) s)

prefix-append : (s p : Str) → has_prefix s p ≡ true → (t : Str) × (s ≡ p ++ t)
unfolding has_prefix
prefix-append s [] h = (s, refl)
prefix-append [] (c ∷ p) h = absurd (cc)
prefix-append (d ∷ s) (c ∷ p) h = let (t, e) = prefix-append s p (ground arith) in (t, ground arith)

-- A key that has a realm for a prefix is of that realm, and the other way round.
pub realm_iff :
    (a : DeviceArgs) (key : Str)
    → ZeroFree a
    → (has_prefix key (device_realm a) ≡ true) ↔ (up_to 3 key ≡ device_realm a)
realm_iff a key zf = (
  λ h. let (t, e) = prefix-append key (device_realm a) h in rw e (up_to-realm a t zf),
  λ h. rw⁻¹ h (up_to-prefix 3 key),
)
