-- ===== src/Devices/Exclusive.antt =====
-- internal/core/device_ownership.go: no device is reserved twice in a realm.
use atenea.Prelude.Str.{Str, str_eq_iff}
use atenea.Prelude.{
  ℕ, ◌<◌, ◌≡◌, ◌≢◌, sym, ap, ◌∙◌, Bool, false, List, [], ◌∷◌, some, arith, lookup,
  lookup-insert-cases, lookup-delete, any, inl, inr,
}
use atenea.Devices.{
  Owners, DeviceArgs, device_realm, owner_key, taken, install, release, forget_device_owner,
}
use atenea.Devices.Realm.{up_to, ZeroFree, realm_iff, up_to-realm}

-- Two keys of one realm that hold a device hold different ones.
abbrev pub Exclusive : Owners → Type 0
Exclusive o =
    (j k : Str) (p q : ℕ)
    → lookup j o.holder ≡ some p
    → lookup k o.holder ≡ some q
    → j ≢ k
    → up_to 3 j ≡ up_to 3 k
    → (o.store p).device ≢ []
    → (o.store p).device ≢ (o.store q).device

-- The map points to places that were given out.
abbrev pub Placed : Owners → Type 0
Placed o = (k : Str) (p : ℕ) → lookup k o.holder ≡ some p → p < o.next

not_any :
    (test : Str × ℕ → Bool) (k : Str) (p : ℕ) (m : List (Str × ℕ))
    → any test m ≡ false
    → lookup k m ≡ some p
    → test (k, p) ≡ false
unfolding lookup
not_any test k p [] h e = cc
not_any test k p ((j, q) ∷ m) h e = ground (arith, str_eq_iff j k, not_any test k p m)

-- Another key of the realm holds another device.
taken-false :
    (o : Owners) (a : DeviceArgs) (device k : Str) (p : ℕ)
    → ZeroFree a
    → taken o (owner_key a) (device_realm a) device ≡ false
    → lookup k o.holder ≡ some p
    → k ≢ owner_key a
    → up_to 3 k ≡ device_realm a
    → device ≢ []
    → (o.store p).device ≢ device
unfolding taken
taken-false o a device k p zf free e other same some_device =
    let test = not_any _ k p o.holder free e in
    let realm = (realm_iff a k zf).1 same in
    ground (
      arith,
      test,
      realm,
      str_eq_iff k (owner_key a),
      str_eq_iff device [],
      str_eq_iff (o.store p).device device,
    )

-- A new owner is at a new place; the others stay.
pub install-Exclusive :
    (o : Owners) (a : DeviceArgs) (caller device : Str)
    → ZeroFree a
    → Exclusive o
    → Placed o
    → taken o (owner_key a) (device_realm a) device ≡ false
    → Exclusive (install o (owner_key a) caller device)
unfolding install
install-Exclusive o a caller device zf ex placed free j k p q ej ek ne same some_device =
    let key = owner_key a in
    let own : up_to 3 key ≡ device_realm a = up_to-realm a a.session zf in
    elim (lookup-insert-cases key j o.next p o.holder ej) [
      | inl (jk, pn) ↦ elim (lookup-insert-cases key k o.next q o.holder ek) [
        | inl (kk, qn) ↦ absurd (ne (jk ∙ sym kk))
        | inr (other, eq) ↦
            let fresh =
              taken-false o a device k q zf free eq other (sym same ∙ ap (up_to 3) jk ∙ own) in
            ground (arith, fresh, placed k q eq)
      ]
      | inr (other, ep) ↦ elim (lookup-insert-cases key k o.next q o.holder ek) [
        | inl (kk, qn) ↦
            let fresh =
              taken-false o a device j p zf free ep other (same ∙ ap (up_to 3) kk ∙ own) in
            ground (arith, fresh, placed j p ep)
        | inr (another, eq) ↦
            let old = ex j k p q ep eq ne same in ground (arith, old, placed j p ep, placed k q eq)
      ]
    ]

pub install-Placed :
    (o : Owners) (key caller device : Str) → Placed o → Placed (install o key caller device)
unfolding install
install-Placed o key caller device placed k p e =
    elim (lookup-insert-cases key k o.next p o.holder e) [
      | inl (a, b) ↦ omega (arith, b)
      | inr (other, f) ↦ omega (arith, placed k p f)
    ]

pub release-Exclusive : (o : Owners) (place : ℕ) → Exclusive o → Exclusive (release o place)
unfolding release
release-Exclusive o place ex j k p q ej ek ne same some_device =
    ground (arith, ex j k p q ej ek ne same)

pub release-Placed : (o : Owners) (place : ℕ) → Placed o → Placed (release o place)
unfolding release
release-Placed o place placed = placed

pub forget-Exclusive :
    (o : Owners) (a : DeviceArgs) → Exclusive o → Exclusive (forget_device_owner o a)
unfolding forget_device_owner
forget-Exclusive o a ex j k p q ej ek ne same some_device = ground (
  arith,
  lookup-delete (owner_key a) j o.holder,
  lookup-delete (owner_key a) k o.holder,
  ex j k p q,
)

pub forget-Placed : (o : Owners) (a : DeviceArgs) → Placed o → Placed (forget_device_owner o a)
unfolding forget_device_owner
forget-Placed o a placed k p e = ground (arith, lookup-delete (owner_key a) k o.holder, placed k p)
