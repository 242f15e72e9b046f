-- ===== src/Lock/Safe.antt =====
-- lock.go: what a lockfile that was read can hold.
use bottle.Common.{
  ℕ, suc, ◌≤◌, List, [], ◌∷◌, ◌≡◌, inl, inr, refl, sym, ap, ◌∙◌, subst, true, false, none, some,
  arith,
}
use bottle.Common.Lists.{All, length}
use bottle.Common.Order.{IsOrder}
use bottle.Common.Order.Keys.{cmp_bytes-IsOrder, IsOrder-on}
use bottle.Common.Result.{Result, ok, err, ◌>>=◌}
use bottle.Common.SortBy.{InOrder, InOrder-sort_by, All-sort_by, length-sort_by, sort_by}
use bottle.Common.Tests.{Option-cases}
use bottle.Common.Text.{Bytes, codes}
use bottle.Lock.{
  Value, text, whole, broken_number, slice, table, other, Table, no_rows, more_rows, LockPin, Lock,
  read_pin, read_pins, cmp_pins, locked_rows, is_newer, is_known_mode, lock_of, lock_string,
  lock_int, at_key, as_table, parse_lock,
}
use bottle.ProjectName.{IsProjectName, validate_project_name, validate_project_name-exact}
use bottle.VersionString.{
  IsVersionString, validate_version_string, validate_version_string-exact, validate_spec_hash,
}

-- A pin that can be acted on: its project is a project name, its version is a version text, and its
-- spec passes the test for one.
abbrev pub IsPin : LockPin → Type 0
IsPin p = IsProjectName p.project × IsVersionString p.version × (validate_spec_hash p.spec ≡ none)

-- The pin that a row of the table names: the row's key, and the texts of its fields.
abbrev pin_of : Bytes → Table → LockPin
pin_of k row = record {
  project = k;
  version = lock_string (at_key (codes "version") row);
  spec = lock_string (at_key (codes "spec") row);
}

-- The pins that a table's rows name, in their order.
abbrev pub pins_of : Table → List LockPin
pins_of no_rows = []
pins_of (more_rows k (table row) t) = pin_of k row ∷ pins_of t
pins_of (more_rows k (text s) t) = pins_of t
pins_of (more_rows k (whole n) t) = pins_of t
pins_of (more_rows k (broken_number n) t) = pins_of t
pins_of (more_rows k (slice vs) t) = pins_of t
pins_of (more_rows k other t) = pins_of t

abbrev pub count_rows : Table → ℕ
count_rows no_rows = 0
count_rows (more_rows k v t) = suc (count_rows t)

pins_of-table :
    (k : Bytes) (v : Value) (row t : Table)
    → as_table v ≡ some row
    → pins_of (more_rows k v t) ≡ pin_of k row ∷ pins_of t
pins_of-table k (table u) row t e =
    let same : u ≡ row = ground arith in ap (λ r. pin_of k r ∷ pins_of t) same
pins_of-table k (text s) row t e = absurd (ground arith)
pins_of-table k (whole n) row t e = absurd (ground arith)
pins_of-table k (broken_number n) row t e = absurd (ground arith)
pins_of-table k (slice vs) row t e = absurd (ground arith)
pins_of-table k other row t e = absurd (ground arith)

read_pin-IsPin :
    (k : Bytes) (v : Value) (p : LockPin)
    → read_pin k v ≡ ok p
    → IsPin p × ((row : Table) × (as_table v ≡ some row) × (p ≡ pin_of k row))
unfolding read_pin
read_pin-IsPin k v p e = elim (Option-cases (as_table v)) [
  | inl bad ↦ absurd (ground arith)
  | inr (t, row) ↦
      let version = lock_string (at_key (codes "version") t) in
      let spec = lock_string (at_key (codes "spec") t) in
      elim (Option-cases (validate_project_name k)) [
        | inr (bad, failed) ↦ absurd (ground arith)
        | inl name ↦ elim (Option-cases (validate_version_string version)) [
          | inr (bad, failed) ↦ absurd (ground arith)
          | inl good ↦ elim (Option-cases (validate_spec_hash spec)) [
            | inr (bad, failed) ↦ absurd (ground arith)
            | inl fit ↦
                let read : pin_of k t ≡ p = ground arith in
                (
                  subst IsPin read (
                    (validate_project_name-exact k).0 name,
                    (validate_version_string-exact version).0 good,
                    fit,
                  ),
                  (t, row, sym read),
                )
          ]
        ]
      ]
]

bind-ok {ℓ κ} :
    {E : Type ℓ} {A B : Type κ} (r : Result E A) (f : A → Result E B) (b : B)
    → (r >>= f) ≡ ok b
    → (a : A) × (r ≡ ok a) × (f a ≡ ok b)
bind-ok (ok a) f b e = (a, refl, e)
bind-ok (err x) f b e = absurd cc

ok_inj {ℓ κ} : {E : Type ℓ} {A : Type κ} (r : Result E A) (a b : A) → r ≡ ok a → r ≡ ok b → a ≡ b
ok_inj r a b h k = cc

read_pins-IsPin :
    (t : Table) (ps : List LockPin)
    → read_pins t ≡ ok ps
    → All IsPin ps × (length ps ≡ count_rows t) × (ps ≡ pins_of t)
unfolding read_pins
read_pins-IsPin no_rows ps e =
    subst (λ qs. All IsPin qs × (length qs ≡ 0) × (qs ≡ [])) (ok_inj (ok []) [] ps refl e)
      (tt, refl, refl)
read_pins-IsPin (more_rows k v t) ps e =
    let (p, first, rest) = bind-ok (read_pin k v) (λ p. read_pins t >>= (λ qs. ok (p ∷ qs))) ps e in
    let (qs, later, all_read) = bind-ok (read_pins t) (λ qs. ok (p ∷ qs)) ps rest in
    let (good, long, same) = read_pins-IsPin t qs later in
    let (fit, (row, there, of_row)) = read_pin-IsPin k v p first in
    let named : p ∷ qs ≡ pins_of (more_rows k v t) =
      ap (λ r. r ∷ qs) of_row
      ∙ (ap (λ rs. pin_of k row ∷ rs) same ∙ sym (pins_of-table k v row t there)) in
    subst (λ rs. All IsPin rs × (length rs ≡ suc (count_rows t)) × (rs ≡ pins_of (more_rows k v t)))
      (ok_inj (ok (p ∷ qs)) (p ∷ qs) ps refl all_read) ((fit, good), ap suc long, named)

locked_rows-rows :
    (m t : Table)
    → locked_rows m ≡ ok t
    → (as_table (at_key (codes "locked") m) ≡ some t) × (1 ≤ count_rows t)
locked_rows-rows m t e = elim (Option-cases (as_table (at_key (codes "locked") m))) [
  | inl bad ↦ absurd (ground arith)
  | inr (u, there) ↦ rows u there
]
  where
    rows :
        (u : Table)
        → as_table (at_key (codes "locked") m) ≡ some u
        → (as_table (at_key (codes "locked") m) ≡ some t) × (1 ≤ count_rows t)
    rows no_rows there = absurd (ground arith)
    rows (more_rows k v u) there =
        let same : more_rows k v u ≡ t = ground arith in
        (there ∙ ap some same, subst (λ w. 1 ≤ count_rows w) same (omega arith))

cmp_pins-IsOrder : IsOrder cmp_pins
cmp_pins-IsOrder = IsOrder-on (λ (p : LockPin). p.project) cmp_bytes-IsOrder

parse_lock_steps :
    (m : Table) (d : Lock)
    → parse_lock m ≡ ok d
    → (is_known_mode (lock_string (at_key (codes "pinned") m)) ≡ true)
      × (is_newer (lock_int (at_key (codes "lockfile_version") m)) ≡ false)
      × ((locked_rows m >>= (λ t. read_pins t >>= (λ ps. ok (lock_of m (sort_by cmp_pins ps)))))
          ≡ ok d)
unfolding parse_lock
parse_lock_steps m d e = (ground arith, ground arith, ground arith)

-- A lock that `ParseLock` reads is of a version and a mode that the build knows, and it is not empty:
-- its pins are those that the rows of the table `locked` name, one for each row with the row's key and
-- the row's texts `version` and `spec`, sorted by project. Each pin has a project name, a version text,
-- and a spec that passes the test for one.
pub parse_lock-IsPin :
    (m : Table) (d : Lock)
    → parse_lock m ≡ ok d
    → (is_newer d.version ≡ false)
      × (is_known_mode d.pinned ≡ true)
      × All IsPin d.pins
      × InOrder cmp_pins d.pins
      × ((t : Table) × (as_table (at_key (codes "locked") m) ≡ some t)
          × (d.pins ≡ sort_by cmp_pins (pins_of t))
          × (length d.pins ≡ count_rows t)
          × (1 ≤ count_rows t))
parse_lock-IsPin m d e =
    let (mode, version, steps) = parse_lock_steps m d e in
    let (t, rows, rest) =
      bind-ok (locked_rows m) (λ t. read_pins t >>= (λ ps. ok (lock_of m (sort_by cmp_pins ps)))) d
        steps in
    let (ps, read, made) =
      bind-ok (read_pins t) (λ ps. ok (lock_of m (sort_by cmp_pins ps))) d rest in
    let (there, some_row) = locked_rows-rows m t rows in
    let (good, long, named) = read_pins-IsPin t ps read in
    subst
      (λ (l : Lock).
        (is_newer l.version ≡ false)
        × (is_known_mode l.pinned ≡ true)
        × All IsPin l.pins
        × InOrder cmp_pins l.pins
        × ((u : Table) × (as_table (at_key (codes "locked") m) ≡ some u)
            × (l.pins ≡ sort_by cmp_pins (pins_of u))
            × (length l.pins ≡ count_rows u)
            × (1 ≤ count_rows u)))
      (ok_inj (ok (lock_of m (sort_by cmp_pins ps))) (lock_of m (sort_by cmp_pins ps)) d refl made)
      (
        version,
        mode,
        All-sort_by cmp_pins IsPin ps good,
        InOrder-sort_by cmp_pins cmp_pins-IsOrder ps,
        (t, there, ap (sort_by cmp_pins) named, length-sort_by cmp_pins ps ∙ long, some_row),
      )
