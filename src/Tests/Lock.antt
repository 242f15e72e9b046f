-- ===== src/Tests/Lock.antt =====
-- A small lockfile.
use bottle.Common.{◌≤◌, [], ◌∷◌, ◌≡◌, refl, true, false, some}
use bottle.Common.Int.{pos}
use bottle.Common.Lists.{All, length}
use bottle.Common.SortBy.{InOrder, sort_by}
use bottle.Common.Text.{Bytes, codes, bytes_eq, cmp_bytes}
use bottle.Lock.{
  Value, text, whole, table, Table, no_rows, more_rows, LockPin, Lock, parse_lock, is_newer,
  is_known_mode, cmp_pins, as_table, at_key, lock_strings,
}
use bottle.ProjectName.{validate_project_name}
use bottle.VersionString.{validate_version_string, validate_spec_hash}
use bottle.Lock.Safe.{IsPin, pins_of, count_rows, parse_lock-IsPin}

abbrev row : Bytes → Value
row version = table (
    more_rows (codes "version") (text version)
      (more_rows (codes "spec") (text (codes "sha256:00ff")) no_rows))

abbrev rows : Table
rows =
    more_rows (codes "zlib.net") (row (codes "1.3"))
      (more_rows (codes "curl.se") (row (codes "8.9")) no_rows)

abbrev lock_file : Table
lock_file =
    more_rows (codes "lockfile_version") (whole (pos 1))
      (more_rows (codes "locked") (table rows) no_rows)

abbrev pin : Bytes → Bytes → LockPin
pin p v = record { project = p; version = v; spec = codes "sha256:00ff" }

abbrev pub lock : Lock
lock = record {
  version = pos 1;
  platform = [];
  generated = [];
  bk = [];
  roots = [];
  pantry = [];
  overlay = [];
  pinned = [];
  pins = pin (codes "curl.se") (codes "8.9") ∷ pin (codes "zlib.net") (codes "1.3") ∷ [];
}

parse_lock-IsPin_example :
    (is_newer lock.version ≡ false)
    × (is_known_mode lock.pinned ≡ true)
    × All IsPin lock.pins
    × InOrder cmp_pins lock.pins
    × ((t : Table) × (as_table (at_key (codes "locked") lock_file) ≡ some t)
        × (lock.pins ≡ sort_by cmp_pins (pins_of t))
        × (length lock.pins ≡ count_rows t)
        × (1 ≤ count_rows t))
unfolding parse_lock lock_strings at_key bytes_eq validate_project_name validate_version_string
    validate_spec_hash cmp_bytes
parse_lock-IsPin_example = parse_lock-IsPin lock_file lock refl
