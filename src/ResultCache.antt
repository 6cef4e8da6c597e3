-- ===== src/ResultCache.antt =====
-- internal/resultcache/cache.go: the bounded cache of results and its flights. The mutex makes each
-- method one step; the clock `c.now()` is the argument `now`, in nanoseconds.
--
-- `items` is the Go map from a key to its element, read through the element to its entry, and `lru`
-- is the linked list, front first. An element of the list is identified by the key of its entry.
-- `nil` caches, which every method answers with its zero value, are not represented.
pub mod Lists
pub mod Bounds
pub mod Reads
pub mod Order
pub mod ReadBack
pub mod Flights
use atenea.Prelude.{
  ℕ, zero, suc, ◌+◌, ◌-◌, Bool, true, false, ◌||◌, List, [], ◌∷◌, Option, none, some, length, ltb,
  leb, if◌then◌else◌, lookup, insert, delete,
}
use atenea.Prelude.Str.{Str, str_eq}
use atenea.ResultCache.Lists.{Entry, back, remove_elem}

-- A negative limit is refused exactly as 0 is, and is not represented.
pub record Config : Type 0 where
  pub max_entries : ℕ
  pub max_bytes : ℕ
  pub ttl : ℕ

pub data ConfigError : Type 0 where
  bad_entries bad_bytes bad_ttl : ConfigError

unfoldable pub validate : Config → Option ConfigError
validate c =
    if leb c.max_entries 0
    then some bad_entries
    else if leb c.max_bytes 0
    then some bad_bytes
    else if leb c.ttl 0
    then some bad_ttl
    else none

pub record Cache : Type 0 where
  pub cfg : Config
  pub bytes : ℕ
  pub items : List (Str × Entry)
  pub lru : List Entry

pub data NewResult : Type 0 where
  created : Cache → NewResult
  refused : ConfigError → NewResult

unfoldable pub new : Config → NewResult
new cfg = elim (validate cfg) [
  | none ↦ created (record { cfg = cfg; bytes = 0; items = []; lru = [] })
  | some e ↦ refused e
]

-- `bytes` is an `int64` in the source; on a valid cache the subtraction does not stop at 0.
unfoldable pub remove_locked : Entry → Cache → Cache
remove_locked e c = record c {
  items = delete e.key c.items;
  bytes = c.bytes - e.bytes;
  lru = remove_elem e.key c.lru;
}

-- The part of `getLocked` behind the map lookup.
unfoldable pub get_found : ℕ → Cache → Option Entry → Cache × Option (List ℕ)
get_found now c none = (c, none)
get_found now c (some e) =
    if ltb now e.expires
    then (record c { lru = e ∷ remove_elem e.key c.lru }, some e.value)
    else (remove_locked e c, none)

unfoldable pub get_locked : ℕ → Str → Cache → Cache × Option (List ℕ)
unfolding get_found
get_locked now key c = if str_eq key [] then (c, none) else get_found now c (lookup key c.items)

unfoldable pub get : ℕ → Str → Cache → Cache × Option (List ℕ)
unfolding get_locked
get now key c = if str_eq key [] then (c, none) else get_locked now key c

-- The test of the loop in `Put`.
abbrev pub over : Cache → Bool
over c = ltb c.cfg.max_entries (length c.items) || ltb c.cfg.max_bytes c.bytes

-- `c.removeLocked(c.lru.Back())`: on an empty list `Back` is nil, and nothing changes.
unfoldable pub remove_back : Cache → Cache
remove_back c = elim (back c.lru) [ none ↦ c | some e ↦ remove_locked e c ]

-- The loop, with fuel; `none` means that the fuel ran out.
unfoldable pub evict : ℕ → Cache → Option Cache
evict zero c = none
evict (suc fuel) c = let rest = evict fuel (remove_back c) in if over c then rest else some c

-- An element already stored under the key goes first.
unfoldable pub drop_old : Option Entry → Cache → Cache
drop_old none c = c
drop_old (some e) c = remove_locked e c

unfoldable pub push_front : Entry → Cache → Cache
push_front e c = record c {
  lru = e ∷ c.lru;
  items = insert e.key e c.items;
  bytes = c.bytes + e.bytes;
}

abbrev pub fresh_entry : ℕ → Str → List ℕ → Cache → Entry
fresh_entry now key value c = record {
  key = key;
  value = value;
  bytes = length value;
  expires = now + c.cfg.ttl;
}

-- `Put`; the fuel is one round for each element, and one to see the test fail.
unfoldable pub put : ℕ → Str → List ℕ → Cache → Option (Cache × Bool)
put now key value c =
    if str_eq key [] || ltb c.cfg.max_bytes (length value)
    then some (c, false)
    else let grown = push_front (fresh_entry now key value c) (drop_old (lookup key c.items) c) in
      elim (evict (suc (length grown.lru)) grown) [ none ↦ none | some c' ↦ some (c', true) ]

-- `Len` and `Bytes`.
unfoldable pub len : Cache → ℕ
len c = length c.items

unfoldable pub bytes : Cache → ℕ
bytes c = c.bytes
