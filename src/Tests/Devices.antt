-- ===== src/Tests/Devices.antt =====
-- Runs of the reservation of devices.
use atenea.Prelude.Str.{Str, codes, str_eq}
use atenea.Prelude.{◌≡◌, ◌≢◌, ◌⊎◌, refl, true, false, [], some, none, lookup, insert}
use atenea.Devices.{
  Owner, Owners, DeviceArgs, device_busy, reserved, refused, install, owner_of, owner_key,
  device_realm, device_dependent, has_prefix, check_owner, bind_session, occupied, taken,
  commit_reservation, reserve_device_call, release,
}
use atenea.Devices.Exclusive.{Exclusive, Placed}
use atenea.Devices.Reserve.{reserve_device_call_lem}
use atenea.Devices.Steps.{started, Reachable, fresh, after, reserves, releases, Reachable-Exclusive}

abbrev args : Str → Str → DeviceArgs
args session device = record {
  daemon_base_url = [];
  tenant = [];
  state_dir = [];
  session = session;
  cwd = codes "/work";
  device = device;
}

abbrev first : DeviceArgs
first = args (codes "one") (codes "pixel")

abbrev first_owned : Owners
first_owned = install started (owner_key first) (codes "alice") (codes "pixel")

open_first :
    reserve_device_call started started (codes "alice") (codes "open") first (some [])
    ≡ reserved first_owned 0
unfolding reserve_device_call device_dependent check_owner commit_reservation bind_session occupied
    taken lookup str_eq device_realm
open_first = refl

first_owned-Reachable : Reachable (release first_owned 0)
first_owned-Reachable =
    after
      (after fresh
        (reserves started (codes "alice") (codes "open") first (some []) 0 (tt, tt, tt) open_first))
      (releases 0)

-- Another conversation does not get the device under another name.
open_second :
    reserve_device_call first_owned first_owned
      (codes "bob")
      (codes "open")
      (args (codes "two") (codes "pixel"))
      (some [])
    ≡ refused device_busy
unfolding reserve_device_call device_dependent check_owner commit_reservation bind_session occupied
    taken lookup insert str_eq device_realm has_prefix install
open_second = refl

Reachable-Exclusive_example : Exclusive (release first_owned 0) × Placed (release first_owned 0)
Reachable-Exclusive_example = Reachable-Exclusive (release first_owned 0) first_owned-Reachable

started-Placed : Placed started
unfolding lookup
started-Placed k p e = absurd (cc)

reserve_device_call_lem_example :
    (((owner_of started (owner_key first) ≡ none) × (codes "open" ≡ codes "open"))
      ⊎ ((w : Owner) × (owner_of started (owner_key first) ≡ some w)
          × (w.conversation ≡ codes "alice")
          × (w.busy ≡ false)))
    × ((device : Str) × (owner_of first_owned (owner_key first)
          ≡ some (record { conversation = codes "alice"; device = device; busy = true })))
    × ((k : Str) → k ≢ owner_key first → owner_of first_owned k ≡ owner_of started k)
reserve_device_call_lem_example =
    reserve_device_call_lem started started first_owned (codes "alice") (codes "open") first
      (some []) 0 started-Placed open_first
