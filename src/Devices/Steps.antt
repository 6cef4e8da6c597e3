-- ===== src/Devices/Steps.antt =====
-- internal/core/device_ownership.go: the owners that any interleaving of calls builds.
use atenea.Prelude.Str.{Str}
use atenea.Prelude.{ℕ, ◌≡◌, List, [], Option, lookup, false, sym}
use mathlib.Core.Path.{subst}
use atenea.Devices.{
  Owners, DeviceArgs, owner_key, reserve_device_call, reserved, SessionState, release,
  forget_device_owner,
}
use atenea.Devices.Realm.{ZeroFree}
use atenea.Devices.Exclusive.{
  Exclusive, Placed, install-Exclusive, install-Placed, release-Exclusive, release-Placed,
  forget-Exclusive, forget-Placed,
}
use atenea.Devices.Reserve.{reserve-Passed}

-- The owners of a core that just started. What stands at a place not given out does not matter.
abbrev pub started : Owners
started = record {
  holder = [];
  store = λ place. record { conversation = []; device = []; busy = false };
  next = 0;
}

-- One change under the lock. `before` is what the same call read under the lock earlier; the calls
-- of other conversations may have changed it since.
pub data Step (o : Owners) : Owners → Type 0 where
  reserves :
      {s : Owners} (before : Owners) (caller tool : Str) (a : DeviceArgs)
      (sessions : Option (List SessionState)) (place : ℕ)
      → ZeroFree a
      → reserve_device_call before o caller tool a sessions ≡ reserved s place
      → Step o s
  releases : (place : ℕ) → Step o (release o place)
  forgets : (a : DeviceArgs) → Step o (forget_device_owner o a)

pub data Reachable : Owners → Type 0 where
  fresh : Reachable started
  after : {o s : Owners} → Reachable o → Step o s → Reachable s

Step-Exclusive : {o s : Owners} → Exclusive o × Placed o → Step o s → Exclusive s × Placed s
Step-Exclusive {o} (ex, placed) (reserves before caller tool a sessions place zf h) =
    let p = reserve-Passed before o _ caller tool a sessions place h in
    subst (λ s. Exclusive s × Placed s) (sym p.installed)
      (
        install-Exclusive o a caller p.device zf ex placed p.untaken,
        install-Placed o (owner_key a) caller p.device placed,
      )
Step-Exclusive {o} (ex, placed) (releases place) =
    (release-Exclusive o place ex, release-Placed o place placed)
Step-Exclusive {o} (ex, placed) (forgets a) = (forget-Exclusive o a ex, forget-Placed o a placed)

started-Exclusive : Exclusive started × Placed started
unfolding lookup
started-Exclusive = (λ j k p q e. absurd (cc), λ k p e. absurd (cc))

-- In every state that reservations, releases and removals reach, in any order and with any other
-- changes between the two checks of a reservation, where no part of a realm holds a zero byte: two
-- sessions of one realm that have a device reserved have different devices.
pub Reachable-Exclusive : (o : Owners) → Reachable o → Exclusive o × Placed o
Reachable-Exclusive o fresh = started-Exclusive
Reachable-Exclusive s (after r step) = Step-Exclusive (Reachable-Exclusive _ r) step
