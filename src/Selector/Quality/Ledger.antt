-- ===== src/Selector/Quality/Ledger.antt =====
-- internal/selector/quality.go: the quality book, its pending rows, and the file that books share.
-- The file is the list of its rows, empty while there is none; its encoding as JSON keeps them. A
-- map is the list of its entries. The parameters stand for what is outside: `canonical` for
-- `canonicalRepositoryRoot`, which asks the file system, `ratio` for the division of two counts as
-- float64, and `arrange` for `slices.SortFunc` with the comparison of `persistLocked`.
pub mod Weights
pub mod Sound
pub mod Merge
pub mod Steps
pub mod Record
pub mod History
pub mod Snapshots
pub mod Blank
use atenea.Prelude.Int.{pos}
use atenea.Prelude.Float.{Float64, float_zero}
use atenea.Prelude.Str.{Str, str_eq}
use atenea.Prelude.{
  ℕ, ◌==◌, ltb, Bool, true, false, not, ◌&&◌, ◌||◌, List, [], ◌∷◌, Option, none, some, map,
  if◌then◌else◌,
}
use atenea.Selector.Quality.{Observation}
use atenea.Selector.Quality.Book.{normalize, validate_observation, merge_quality}

pub record Key : Type 0 where
  pub capability : Str
  pub repository : Str
  pub implementation : Str
  pub language : Str
  pub version : Str
  pub instance_id : Str
  pub config_digest : Str

unfoldable pub key_eq : Key → Key → Bool
key_eq a b =
    str_eq a.capability b.capability
    && (str_eq a.repository b.repository
        && (str_eq a.implementation b.implementation
            && (str_eq a.language b.language
                && (str_eq a.version b.version
                    && (str_eq a.instance_id b.instance_id
                        && str_eq a.config_digest b.config_digest)))))

abbrev pub Table : Type 0
Table = List (Key × Observation)

-- What a map gives for a key that it does not hold.
abbrev pub zero_observation : Observation
zero_observation = record {
  capability = [];
  repository = [];
  repository_root = [];
  implementation = [];
  language = [];
  tool_version = [];
  instance_id = [];
  config_digest = [];
  samples = 0;
  total = 0;
  valid_count = 0;
  accepted_count = 0;
  complete_count = 0;
  partial_count = 0;
  truncated_count = 0;
  failure_count = 0;
  accepted = false;
  complete = false;
  truncated = false;
  out_of_scope = pos 0;
  valid_outcome = false;
  validated = false;
  score = float_zero;
  observed_at = 0;
}

unfoldable pub holds_key : Key → Table → Bool
holds_key k [] = false
holds_key k ((j, q) ∷ t) = key_eq j k || holds_key k t

-- `m[k]`
unfoldable pub at_key : Key → Table → Observation
at_key k [] = zero_observation
at_key k ((j, q) ∷ t) = if key_eq j k then q else at_key k t

-- `m[k] = q`
unfoldable pub put_key : Key → Observation → Table → Table
put_key k q [] = (k, q) ∷ []
put_key k q ((j, p) ∷ t) =
    let rest = put_key k q t in if key_eq j k then (k, q) ∷ t else (j, p) ∷ rest

pub record QualityBook : Type 0 where
  pub by_key : Table
  pub pending : Table
  -- A path is set.
  pub durable : Bool

-- Where the input and output of `persistLocked` fail: at the lock or the reading, or later, at the
-- writing.
pub data Trouble : Type 0 where
  no_trouble at_reading at_writing : Trouble

module _ (canonical : Str → Str) (ratio : ℕ → ℕ → Float64) where
  unfoldable pub row_root : Observation → Str
  row_root q =
      let root = canonical q.repository_root in
      if str_eq root [] then canonical q.repository else root

  abbrev pub row_key : Str → Observation → Key
  row_key root q = record {
    capability = q.capability;
    repository = root;
    implementation = q.implementation;
    language = q.language;
    version = q.tool_version;
    instance_id = q.instance_id;
    config_digest = q.config_digest;
  }

  -- A row of the file is refused before `normalize` where a mark denies its count.
  abbrev pub denied : Observation → Bool
  denied q = (ltb 0 q.total && not q.validated) || (ltb 0 q.valid_count && not q.valid_outcome)

  abbrev pub nameless : Str → Observation → Bool
  nameless root q = str_eq q.capability [] || (str_eq q.implementation [] || str_eq root [])

  -- The row that is kept, its score derived again.
  abbrev pub derived : Str → Observation → Observation
  derived root q = record q { repository_root = root; score = ratio q.accepted_count q.total }

  -- One turn of the loop of `readQualityRows`, over a normalized row.
  unfoldable pub accept_row : Observation → Table → Option Table
  accept_row q out =
      let root = row_root q in
      if not (validate_observation q)
      then none
      else if nameless root q
      then none
      else if holds_key (row_key root q) out
      then none
      else some (put_key (row_key root q) (derived root q) out)

  -- `readQualityRows`
  unfoldable pub read_rows : List Observation → Table → Option Table
  read_rows [] out = some out
  read_rows (q ∷ rows) out =
      if denied q
      then none
      else elim (accept_row (normalize q) out) [ none ↦ none | some out' ↦ read_rows rows out' ]

  -- `disk[k] = mergeQuality(disk[k], delta)` for each pending row.
  unfoldable pub merge_pending : Table → Table → Table
  merge_pending [] disk = disk
  merge_pending ((k, delta) ∷ pending) disk =
      merge_pending pending (put_key k (merge_quality ratio (at_key k disk) delta) disk)

  -- `b.byKey[k] = q` for each row.
  abbrev pub refreshed : Table → Table → Table
  refreshed [] table = table
  refreshed ((k, q) ∷ rows) table = refreshed rows (put_key k q table)

  abbrev pub rows_of : Table → List Observation
  rows_of = map (λ entry. entry.1)

  module _ (arrange : List Observation → List Observation) where
    -- The part of `persistLocked` behind the reading.
    unfoldable pub write_back :
        Trouble → QualityBook → List Observation → Table → QualityBook × List Observation × Bool
    write_back trouble b file disk =
        let merged = merge_pending b.pending disk in
        let seen = refreshed merged b.by_key in
        elim trouble [
          | no_trouble ↦ (record b { by_key = seen; pending = [] }, arrange (rows_of merged), true)
          | at_reading ↦ (b, file, false)
          | at_writing ↦ (record b { by_key = seen }, file, false)
        ]

    unfoldable pub persist :
        Trouble → QualityBook → List Observation → QualityBook × List Observation × Bool
    persist trouble b file = if not b.durable then (b, file, true) else elim (read_rows file []) [
      | none ↦ (b, file, false)
      | some disk ↦ write_back trouble b file disk
    ]

    -- What `Record` takes no notice of.
    abbrev pub unrecorded : Observation → Bool
    unrecorded q =
        str_eq q.capability []
        || (str_eq q.repository []
            || (str_eq q.implementation [] || (not q.valid_outcome && not q.validated)))

    abbrev pub stamped : ℕ → Observation → Observation
    stamped now q = record (normalize (record q { repository_root = row_root q })) {
      observed_at = now;
    }

    unfoldable pub record_observation :
        ℕ
        → Trouble
        → Observation
        → QualityBook
        → List Observation
        → QualityBook × List Observation × Bool
    record_observation now trouble q b file =
        let k = row_key (row_root q) q in
        let p = stamped now q in
        if unrecorded q
        then (b, file, true)
        else persist trouble
            (record b {
              by_key = put_key k (merge_quality ratio (normalize (at_key k b.by_key)) p) b.by_key;
              pending = put_key k (merge_quality ratio (at_key k b.pending) p) b.pending;
            })
            file
