-- ===== src/Devices.antt =====
-- internal/core/device_ownership.go: which conversation owns which device session. An owner is a
-- shared object that the map and the releasing function both point to, so owners stand in a store
-- and the map holds their places in it. `holder` maps a key to a place.
pub mod Realm
pub mod Exclusive
pub mod Reserve
pub mod Steps
use atenea.Prelude.Str.{Str, codes, str_eq}
use atenea.Prelude.{
  update, ℕ, suc, ◌+◌, Bool, true, false, not, ◌==◌, ◌&&◌, ◌||◌, List, [], ◌∷◌, ◌++◌, Option, none,
  some, any, if◌then◌else◌, lookup, insert, delete,
}
use atenea.Contract.Implementation.{contains}

pub record Owner : Type 0 where
  pub conversation : Str
  pub device : Str
  pub busy : Bool

pub record Owners : Type 0 where
  pub holder : List (Str × ℕ)
  pub store : ℕ → Owner
  pub next : ℕ

-- A row of the upstream list of sessions; its `platform` is read by nobody here.
pub record SessionState : Type 0 where
  pub name : Str
  pub device : Str
  pub label : Str

abbrev pub owner_of : Owners → Str → Option Owner
owner_of o key = elim (lookup key o.holder) [ none ↦ none | some p ↦ some (o.store p) ]

abbrev dependent_tools : List Str
dependent_tools =
    codes "open"
    ∷ codes "close"
    ∷ codes "snapshot"
    ∷ codes "screenshot"
    ∷ codes "click"
    ∷ codes "wait"
    ∷ codes "fill"
    ∷ codes "type"
    ∷ codes "press"
    ∷ codes "back"
    ∷ codes "home"
    ∷ codes "scroll"
    ∷ codes "swipe"
    ∷ codes "hover"
    ∷ codes "longpress"
    ∷ codes "gesture"
    ∷ codes "keyboard"
    ∷ codes "orientation"
    ∷ []

unfoldable pub device_dependent : Str → Bool
device_dependent tool = contains tool dependent_tools

-- The arguments that a call gives, a missing one as the empty text. `device` is the first of
-- `udid`, `serial` and `device` that is not empty.
pub record DeviceArgs : Type 0 where
  pub daemon_base_url : Str
  pub tenant : Str
  pub state_dir : Str
  pub session : Str
  pub cwd : Str
  pub device : Str

unfoldable pub device_realm : DeviceArgs → Str
device_realm a = a.daemon_base_url ++ (0 ∷ (a.tenant ++ (0 ∷ (a.state_dir ++ (0 ∷ [])))))

abbrev pub owner_key : DeviceArgs → Str
owner_key a = device_realm a ++ a.session

-- `strings.HasPrefix(s, p)`
unfoldable pub has_prefix : Str → Str → Bool
has_prefix s [] = true
has_prefix [] (c ∷ p) = false
has_prefix (d ∷ s) (c ∷ p) = (d == c) && has_prefix s p

-- The codes of the failures.
pub data Refused : Type 0 where
  session_not_found invalid_args device_busy state_unverified : Refused

pub data Reserved : Type 0 where
  independent : Reserved
  reserved : Owners → (place : ℕ) → Reserved
  refused : Refused → Reserved

-- `filepath.IsAbs`, on the systems that have `/` for a root.
abbrev is_abs : Str → Bool
is_abs [] = false
is_abs (c ∷ s) = c == b'/'

-- The closure `check`: `none` is its nil.
unfoldable pub check_owner : Owners → Str → Str → Str → Option Refused
check_owner o key caller tool = elim (owner_of o key) [
  | some owner ↦
      if not (str_eq owner.conversation caller)
      then some device_busy
      else if owner.busy
      then some device_busy
      else none
  | none ↦ if str_eq tool (codes "open") then none else some session_not_found
]

pub data Bound : Type 0 where
  bound : (found : Bool) (device : Str) → Bound
  failed : Refused → Bound

-- The first loop over the sessions, on the rows with the name of this session.
unfoldable pub bind_session : Bool → Str → Bool → Str → List SessionState → Bound
bind_session owned session found device [] = bound found device
bind_session owned session found device (s ∷ ss) = elim (str_eq s.name session) [
  | false ↦ bind_session owned session found device ss
  | true ↦ elim (not owned) [
    | true ↦ failed device_busy
    | false ↦
        elim (not (str_eq device [])
          && (not (str_eq device s.device) && not (str_eq device s.label))) [
            | true ↦ failed invalid_args
            | false ↦ bind_session owned session true s.device ss
          ]
  ]
]

-- The second loop: whether another session holds the device.
unfoldable pub occupied : Str → Str → List SessionState → Bool
occupied session device = any (λ s.
    not (str_eq s.name session)
    && (not (str_eq device []) && (str_eq device s.device || str_eq device s.label)))

-- The third loop: whether another owner in the realm has reserved the device.
unfoldable pub taken : Owners → Str → Str → Str → Bool
unfolding has_prefix
taken o key realm device =
    any
      (λ (other, p).
        not (str_eq other key)
        && (has_prefix other realm && (not (str_eq device []) && str_eq (o.store p).device device)))
      o.holder

-- The new owner stands at a new place.
unfoldable pub install : Owners → Str → Str → Str → Owners
install o key caller device = record {
  holder = insert key o.next o.holder;
  store = update o.store o.next (record { conversation = caller; device = device; busy = true });
  next = suc o.next;
}

abbrev present : {A : Type 0} → Option A → Bool
present none = false
present (some a) = true

-- The part of `reserveDeviceCall` behind the two checks, under one lock.
unfoldable pub commit_reservation : Owners → Str → Str → DeviceArgs → List SessionState → Reserved
unfolding device_realm
commit_reservation o caller tool a sessions =
    elim (bind_session (present (owner_of o (owner_key a))) a.session false a.device sessions) [
      | failed r ↦ refused r
      | bound found device ↦
          if occupied a.session device sessions
          then refused device_busy
          else if not found && not (str_eq tool (codes "open"))
          then refused session_not_found
          else if taken o (owner_key a) (device_realm a) device
          then refused device_busy
          else reserved (install o (owner_key a) caller device) o.next
    ]

-- `reserveDeviceCall`. The owners are read under the lock, which is free during the probe: `before`
-- are the owners at the first check, and `o` those behind the probe. `sessions` is what the probe
-- answers, none where it fails.
unfoldable pub reserve_device_call :
    Owners → Owners → Str → Str → DeviceArgs → Option (List SessionState) → Reserved
reserve_device_call before o caller tool a sessions =
    if not (device_dependent tool)
    then independent
    else if str_eq a.session []
    then refused session_not_found
    else if not (is_abs a.cwd)
    then refused invalid_args
    else if str_eq tool (codes "open") && str_eq a.device []
    then refused invalid_args
    else elim (check_owner before (owner_key a) caller tool) [
      | some r ↦ refused r
      | none ↦ elim sessions [
        | none ↦ refused state_unverified
        | some ss ↦ elim (check_owner o (owner_key a) caller tool) [
          | some r ↦ refused r
          | none ↦ commit_reservation o caller tool a ss
        ]
      ]
    ]

-- The function that a reservation returns: it reaches its own owner, whoever holds the key by then.
unfoldable pub release : Owners → ℕ → Owners
release o place = record o {
  store = update o.store place (record (o.store place) { busy = false });
}

unfoldable pub forget_device_owner : Owners → DeviceArgs → Owners
forget_device_owner o a = record o { holder = delete (owner_key a) o.holder }
