-- ===== src/Devices/Reserve.antt =====
-- internal/core/device_ownership.go: what a call that was let through has reserved.
use atenea.Prelude.Str.{Str, str_eq, str_eq_iff, str_eq_refl, codes}
use atenea.Prelude.{
  ℕ, ◌≡◌, ◌≢◌, refl, ap, ◌∙◌, ◌⊎◌, Bool, true, false, List, Option, none, some, arith, lookup,
  lookup-insert, if◌then◌else◌, Option-cases, inl, inr,
}
use atenea.Devices.{
  Owner, Owners, DeviceArgs, device_realm, owner_key, owner_of, taken, install, occupied,
  reserve_device_call, commit_reservation, check_owner, reserved, SessionState, bind_session, Bound,
  bound, failed, Refused, present,
}
use atenea.Devices.Exclusive.{Placed}

-- The tests that a reservation passed, and the owners behind it.
pub record Passed (o : Owners) (caller tool : Str) (a : DeviceArgs) (s : Owners) (place : ℕ)
    : Type 0 where
  pub sessions : List SessionState
  pub device : Str
  pub installed : s ≡ install o (owner_key a) caller device
  pub at_next : place ≡ o.next
  pub checked : check_owner o (owner_key a) caller tool ≡ none
  pub unoccupied : occupied a.session device sessions ≡ false
  pub untaken : taken o (owner_key a) (device_realm a) device ≡ false

Bound-cases :
    (b : Bound)
    → ((r : Refused) × (b ≡ failed r))
      ⊎ ((found : Bool) × (device : Str) × (b ≡ bound found device))
Bound-cases (failed r) = inl (r, refl)
Bound-cases (bound found device) = inr (found, device, refl)

commit-Passed :
    (o s : Owners) (caller tool : Str) (a : DeviceArgs) (sessions : List SessionState) (place : ℕ)
    → check_owner o (owner_key a) caller tool ≡ none
    → commit_reservation o caller tool a sessions ≡ reserved s place
    → Passed o caller tool a s place
unfolding commit_reservation
commit-Passed o s caller tool a sessions place ok h =
    let b = bind_session (present (owner_of o (owner_key a))) a.session false a.device sessions in
    elim (Bound-cases b) [
      | inl (r, e) ↦ absurd (ground arith)
      | inr (found, device, e) ↦ record {
        sessions = sessions;
        device = device;
        installed = ground arith;
        at_next = ground arith;
        checked = ok;
        unoccupied = ground arith;
        untaken = ground arith;
      }
    ]

pub reserve-Passed :
    (before o s : Owners) (caller tool : Str) (a : DeviceArgs)
    (sessions : Option (List SessionState)) (place : ℕ)
    → reserve_device_call before o caller tool a sessions ≡ reserved s place
    → Passed o caller tool a s place
unfolding reserve_device_call
reserve-Passed before o s caller tool a none place h = absurd (ground arith)
reserve-Passed before o s caller tool a (some ss) place h =
    commit-Passed o s caller tool a ss place (ground arith) (ground arith)

-- An owner that `check` lets through.
check_owner-none :
    (o : Owners) (key caller tool : Str)
    → check_owner o key caller tool ≡ none
    → ((owner_of o key ≡ none) × (tool ≡ codes "open"))
      ⊎ ((w : Owner) × (owner_of o key ≡ some w) × (w.conversation ≡ caller) × (w.busy ≡ false))
unfolding check_owner
check_owner-none o key caller tool h = elim (Option-cases (owner_of o key)) [
  | inl e ↦ inl (e, ground (arith, str_eq_iff tool (codes "open")))
  | inr (w, e) ↦ inr (w, e, ground (arith, str_eq_iff w.conversation caller), ground arith)
]

owner_of-install :
    (o : Owners) (key caller device k : Str)
    → Placed o
    → owner_of (install o key caller device) k ≡ (
        if str_eq key k
        then some (record { conversation = caller; device = device; busy = true })
        else owner_of o k)
unfolding install
owner_of-install o key caller device k placed = elim (Option-cases (lookup k o.holder)) [
  | inl e ↦ ground (arith, lookup-insert key k o.next o.holder)
  | inr (p, e) ↦ ground (arith, lookup-insert key k o.next o.holder, placed k p e)
]

-- Where `reserveDeviceCall` lets a device call through: the session's owner, if there was one
-- behind the probe, was this conversation and had no call running, and only `open` is let through
-- without one; behind it this conversation owns the session with a call running; and the owner of
-- every other session is the same as before.
pub reserve_device_call_lem :
    (before o s : Owners) (caller tool : Str) (a : DeviceArgs)
    (sessions : Option (List SessionState)) (place : ℕ)
    → Placed o
    → reserve_device_call before o caller tool a sessions ≡ reserved s place
    → (((owner_of o (owner_key a) ≡ none) × (tool ≡ codes "open"))
        ⊎ ((w : Owner) × (owner_of o (owner_key a) ≡ some w)
            × (w.conversation ≡ caller)
            × (w.busy ≡ false)))
      × ((device : Str) × (owner_of s (owner_key a)
            ≡ some (record { conversation = caller; device = device; busy = true })))
      × ((k : Str) → k ≢ owner_key a → owner_of s k ≡ owner_of o k)
reserve_device_call_lem before o s caller tool a sessions place placed h =
    let passed = reserve-Passed before o s caller tool a sessions place h in
    let key = owner_key a in
    let installed = λ (k : Str). ap (λ o'. owner_of o' k) passed.installed in
    (
      check_owner-none o key caller tool passed.checked,
      (
        passed.device,
        installed key
            ∙ owner_of-install o key caller passed.device key placed
            ∙ rw (str_eq_refl key) refl,
      ),
      λ k other.
          installed k
          ∙ owner_of-install o key caller passed.device k placed
          ∙ ground (arith, str_eq_iff key k),
    )
