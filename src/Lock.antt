-- ===== src/Lock.antt =====
-- lock.go: reading a lockfile.
pub mod Safe
use Prim.Native.Nat.{Ordering}
use bottle.Common.{
  ℕ, List, [], ◌∷◌, ◌++◌, ◌&&◌, ◌||◌, not, Bool, true, false, Option, none, some, map,
}
use bottle.Common.Int.{ℤ, pos, negsuc}
use bottle.Common.Lists.{is_empty}
use bottle.Common.Result.{Result, ok, err, ◌>>=◌}
use bottle.Common.SortBy.{sort_by}
use bottle.Common.Tests.{ltb, if◌then◌else◌}
use bottle.Common.Text.{Bytes, codes, bytes_eq, cmp_bytes}
use bottle.ProjectName.{NameError, validate_project_name}
use bottle.VersionString.{Refusal, validate_version_string, validate_spec_hash}

-- A value that the reader of HCL produces, of the types that are told apart; a number that is not
-- whole comes with its whole part.
mutual
  pub data Value : Type 0 where
    text : Bytes → Value
    whole : ℤ → Value
    broken_number : ℤ → Value
    slice : Values → Value
    table : Table → Value
    other : Value

  pub data Values : Type 0 where
    no_values : Values
    more_values : Value → Values → Values

  pub data Table : Type 0 where
    no_rows : Table
    more_rows : Bytes → Value → Table → Table

-- The struct `LockPin`.
pub record LockPin : Type 0 where
  pub project : Bytes
  pub version : Bytes
  pub spec : Bytes

-- The struct `Lock`.
pub record Lock : Type 0 where
  pub version : ℤ
  pub platform : Bytes
  pub generated : Bytes
  pub bk : Bytes
  pub roots : List Bytes
  pub pantry : Bytes
  pub overlay : Bytes
  pub pinned : Bytes
  pub pins : List LockPin

abbrev pub pins_from_recipes : Bytes
pins_from_recipes = codes "recipes"

abbrev pub pins_published : Bytes
pins_published = codes "published"

abbrev pub lockfile_version : ℕ
lockfile_version = 1

-- `LockPinned`.
unfoldable pub lock_pinned : Lock → Bytes
unfolding bytes_eq
lock_pinned d = if bytes_eq d.pinned pins_published then pins_published else pins_from_recipes

-- `m[key]`; a key that is missing reads as nil.
unfoldable pub at_key : Bytes → Table → Value
unfolding bytes_eq
at_key k no_rows = other
at_key k (more_rows j v t) = let rest = at_key k t in if bytes_eq k j then v else rest

-- `lockString`, `lockInt` and `lockSlice`.
abbrev pub lock_string : Value → Bytes
lock_string (text s) = s
lock_string (whole n) = []
lock_string (broken_number n) = []
lock_string (slice vs) = []
lock_string (table t) = []
lock_string other = []

abbrev pub lock_int : Value → ℤ
lock_int (text s) = pos 0
lock_int (whole n) = n
lock_int (broken_number n) = n
lock_int (slice vs) = pos 0
lock_int (table t) = pos 0
lock_int other = pos 0

abbrev pub lock_slice : Value → Values
lock_slice (text s) = no_values
lock_slice (whole n) = no_values
lock_slice (broken_number n) = no_values
lock_slice (slice vs) = vs
lock_slice (table t) = no_values
lock_slice other = no_values

-- `v.(map[string]any)`.
abbrev pub as_table : Value → Option Table
as_table (text s) = none
as_table (whole n) = none
as_table (broken_number n) = none
as_table (slice vs) = none
as_table (table t) = some t
as_table other = none

-- The errors of `ParseLock` behind the reader's.
pub data LockError : Type 0 where
  unknown_mode : (pinned : Bytes) → LockError
  newer_version : ℤ → LockError
  not_a_lock : LockError
  not_an_entry : (project : Bytes) → LockError
  bad_name : NameError → LockError
  bad_version : (project : Bytes) → Refusal → LockError
  bad_spec : (project : Bytes) → Refusal → LockError

abbrev pub is_newer : ℤ → Bool
is_newer (pos n) = ltb lockfile_version n
is_newer (negsuc n) = false

abbrev pub is_known_mode : Bytes → Bool
is_known_mode s = is_empty s || bytes_eq s pins_from_recipes || bytes_eq s pins_published

-- The loop over the roots.
unfoldable pub lock_strings : Values → List Bytes
lock_strings no_values = []
lock_strings (more_values v vs) = lock_string v ∷ lock_strings vs

-- One round of the loop over `locked`.
unfoldable pub read_pin : Bytes → Value → Result LockError LockPin
read_pin project v = elim (as_table v) [
  | none ↦ err (not_an_entry project)
  | some e ↦ elim (validate_project_name project) [
    | some bad ↦ err (bad_name bad)
    | none ↦ elim (validate_version_string (lock_string (at_key (codes "version") e))) [
      | some bad ↦ err (bad_version project bad)
      | none ↦ elim (validate_spec_hash (lock_string (at_key (codes "spec") e))) [
        | some bad ↦ err (bad_spec project bad)
        | none ↦ ok (record {
          project = project;
          version = lock_string (at_key (codes "version") e);
          spec = lock_string (at_key (codes "spec") e);
        })
      ]
    ]
  ]
]

-- The loop; Go runs over a map in any order, here it is the order of the rows.
unfoldable pub read_pins : Table → Result LockError (List LockPin)
unfolding read_pin
read_pins no_rows = ok []
read_pins (more_rows k v t) = read_pin k v >>= (λ p. read_pins t >>= (λ ps. ok (p ∷ ps)))

-- The order of the pins.
abbrev pub cmp_pins : LockPin → LockPin → Ordering
cmp_pins a b = cmp_bytes a.project b.project

abbrev pub is_no_table : Table → Bool
is_no_table no_rows = true
is_no_table (more_rows k v t) = false

-- `locked, ok := m["locked"].(map[string]any)`, where there is something in it.
abbrev pub locked_rows : Table → Result LockError Table
locked_rows m = elim (as_table (at_key (codes "locked") m)) [
  | none ↦ err not_a_lock
  | some t ↦ if is_no_table t then err not_a_lock else ok t
]

-- The fields of the lock but its pins.
abbrev pub lock_of : Table → List LockPin → Lock
lock_of m pins = record {
  version = lock_int (at_key (codes "lockfile_version") m);
  platform = lock_string (at_key (codes "platform") m);
  generated = lock_string (at_key (codes "generated") m);
  bk = lock_string (at_key (codes "bk") m);
  roots = lock_strings (lock_slice (at_key (codes "roots") m));
  pantry = lock_string (at_key (codes "pantry") m);
  overlay = lock_string (at_key (codes "overlay") m);
  pinned = lock_string (at_key (codes "pinned") m);
  pins = pins;
}

-- `ParseLock`, of what the reader of HCL answers with.
unfoldable pub parse_lock : Table → Result LockError Lock
unfolding read_pins sort_by
parse_lock m =
    let pinned = lock_string (at_key (codes "pinned") m) in
    let version = lock_int (at_key (codes "lockfile_version") m) in
    if not (is_known_mode pinned)
    then err (unknown_mode pinned)
    else if is_newer version
    then err (newer_version version)
    else (locked_rows m >>= (λ t. read_pins t >>= (λ ps. ok (lock_of m (sort_by cmp_pins ps)))))
