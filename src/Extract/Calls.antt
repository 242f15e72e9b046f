-- ===== src/Extract/Calls.antt =====
-- extract.go: the calls of one entry all go to its path.
use bottle.Common.{ℕ, List, ◌∷◌, ◌++◌, ◌≡◌, refl, Bool, true, false, Option, none, some}
use bottle.Common.Lists.{All}
use bottle.Common.Paths.{slashed, dir_of}
use bottle.Common.Paths.Names.{IsName}
use bottle.Common.Result.{Result, ok, err}
use bottle.Common.Tests.{◌==◌, if◌then◌else◌}
use bottle.Common.Text.{Bytes}
use bottle.Extract.{
  is_dir, is_symlink, is_link, is_reg, is_other, Header, ExtractError, Os, ext_perm_or,
  ext_link_source, and_then, last_call, ext_write_file, ext_restore_time, remove_symlink,
  after_copy, place,
}
use bottle.Extract.Targets.{IsBelow, ext_safe_target-IsBelow}
use bottle.Extract.Parents.{IsUncrossed}

module _ {S : Type 0} (os : Os S) (p : Bytes) (ps : List Bytes) where
  abbrev pub dest : Bytes
  dest = slashed (p ∷ ps)

  -- A call that writes at the path, or makes its directory; a hard link is made of a path that is
  -- the directory `dest` or below it.
  pub data Call (target : Bytes) : S → S → Type 0 where
    makes : (n : ℕ) (s : S) → Call target s (os.mkdir_all target n s).0
    makes_dir : (n : ℕ) (s : S) → Call target s (os.mkdir_all (dir_of target) n s).0
    removes : (s : S) → Call target s (os.remove target s)
    symlinks : (old : Bytes) (s : S) → Call target s (os.symlink old target s).0
    links : (old : Bytes) (s : S) → IsBelow (p ∷ ps) old → Call target s (os.link old target s).0
    opens : (n : ℕ) (s : S) → Call target s (os.open_file target n s).0
    copies : (body : Bytes) (s : S) → Call target s (os.copy_body target body s).0
    closes : (s : S) → Call target s (os.close_file target s).0
    stamps : (n : ℕ) (s : S) → Call target s (os.chtimes target n s).0

  pub data Calls (target : Bytes) : S → S → Type 0 where
    no_call : (s : S) → Calls target s s
    then_call : (s u v : S) → Call target s u → Calls target u v → Calls target s v

  -- One after another, entries that each write at a path of `dest` that no symlink leads to.
  pub data Entries : S → S → Type 0 where
    no_entry : (s : S) → Entries s s
    then_entry :
        (es : List Bytes) (s u v : S)
        → All IsName es
        → IsUncrossed os (p ∷ ps) es s
        → Calls (slashed ((p ∷ ps) ++ es)) s u
        → Entries u v
        → Entries s v

  Calls-one : (target : Bytes) (s u : S) → Call target s u → Calls target s u
  Calls-one target s u c = then_call s u u c (no_call u)

  and_then-Calls :
      (target : Bytes) (s : S) (r : S × Bool) (next : S → S × Option ExtractError)
      → Call target s r.0
      → ((u : S) → Calls target u (next u).0)
      → Calls target s (and_then os r next).0
  and_then-Calls target s (u, true) next c rest = then_call s u (next u).0 c (rest u)
  and_then-Calls target s (u, false) next c rest = Calls-one target s u c

  last_call-Calls :
      (target : Bytes) (s : S) (r : S × Bool)
      → Call target s r.0
      → Calls target s (last_call os r).0
  last_call-Calls target s r c = and_then-Calls target s r (λ u. (u, none)) c (λ u. no_call u)

  ext_restore_time-Calls :
      (target : Bytes) (time : ℕ) (s : S) → Calls target s (ext_restore_time os target time s).0
  unfolding ext_restore_time
  ext_restore_time-Calls target time s =
      elim (time == 0)
        as (λ b.
          Calls target s (if b then (s, none) else last_call os (os.chtimes target time s)).0) [
            | true ↦ no_call s
            | false ↦ last_call-Calls target s (os.chtimes target time s) (stamps time s)
          ]

  after_copy-Calls :
      (target : Bytes) (s : S) (next : S → S × Option ExtractError) (r : S × Bool)
      → Call target s r.0
      → ((v : S) → Calls target v (next v).0)
      → Calls target s (after_copy os target next r).0
  after_copy-Calls target s next (u, false) c rest =
      then_call s u (os.close_file target u).0 c
        (Calls-one target u (os.close_file target u).0 (closes u))
  after_copy-Calls target s next (u, true) c rest =
      then_call s u (and_then os (os.close_file target u) next).0 c
        (and_then-Calls target u (os.close_file target u) next (closes u) rest)

  ext_write_file-Calls :
      (target : Bytes) (n : ℕ) (body : Bytes) (next : S → S × Option ExtractError) (s : S)
      → ((v : S) → Calls target v (next v).0)
      → Calls target s (ext_write_file os target n body next s).0
  unfolding ext_write_file
  ext_write_file-Calls target n body next s rest =
      and_then-Calls target s (os.open_file target n s)
        (λ s1. after_copy os target next (os.copy_body target body s1)) (opens n s)
        (λ v. after_copy-Calls target v next (os.copy_body target body v) (copies body v) rest)

  -- `remove_symlink` before more calls.
  remove_symlink-Calls :
      (target : Bytes) (s v : S) → Calls target (remove_symlink os target s) v → Calls target s v
  remove_symlink-Calls target s v =
      elim (os.lstat target s)
        as (λ o.
          Calls target (elim o [ some true ↦ os.remove target s | some false ↦ s | none ↦ s ]) v
          → Calls target s v) [
            | some true ↦ λ rest. then_call s (os.remove target s) v (removes s) rest
            | some false ↦ λ rest. rest
            | none ↦ λ rest. rest
          ]

  linked-Calls :
      (strip : ℕ) (target : Bytes) (s : S) (source : Result ExtractError Bytes)
      → ((old : Bytes) → source ≡ ok old → IsBelow (p ∷ ps) old)
      → Calls target s
          (elim source as (λ _. S × Option ExtractError) [
            | err e ↦ (s, some e)
            | ok old ↦ last_call os (os.link old target (os.remove target s))
          ]).0
  linked-Calls strip target s (err e) below = no_call s
  linked-Calls strip target s (ok old) below =
      let gone = os.remove target s in
      then_call s gone (last_call os (os.link old target gone)).0 (removes s)
        (last_call-Calls target gone (os.link old target gone) (links old gone (below old refl)))

  pub place-Calls :
      (strip : ℕ) (target : Bytes) (h : Header) (s : S)
      → All IsName (p ∷ ps)
      → Calls target s (place os dest strip target h s).0
  unfolding place
  place-Calls strip target h s names =
      elim h.kind
        as (λ k. Calls target s (place os dest strip target (record h { kind = k }) s).0) [
          | is_dir ↦
              last_call-Calls target s (os.mkdir_all target (ext_perm_or h.perm 493) s)
                (makes (ext_perm_or h.perm 493) s)
          | is_symlink ↦
              and_then-Calls target s (os.mkdir_all (dir_of target) 493 s)
                (λ u. last_call os (os.symlink h.link_name target (os.remove target u)))
                (makes_dir 493 s)
                (λ u.
                  then_call u (os.remove target u)
                    (last_call os (os.symlink h.link_name target (os.remove target u))).0
                    (removes u)
                    (last_call-Calls target (os.remove target u)
                      (os.symlink h.link_name target (os.remove target u))
                      (symlinks h.link_name (os.remove target u))))
          | is_link ↦
              and_then-Calls target s (os.mkdir_all (dir_of target) 493 s)
                (λ u. elim (ext_link_source dest h.link_name strip) [
                  | err e ↦ (u, some e)
                  | ok old ↦ last_call os (os.link old target (os.remove target u))
                ])
                (makes_dir 493 s)
                (λ u.
                  linked-Calls strip target u (ext_link_source dest h.link_name strip)
                    (λ old e. (ext_safe_target-IsBelow p ps strip names).1 h.link_name old e))
          | is_reg ↦
              and_then-Calls target s (os.mkdir_all (dir_of target) 493 s)
                (λ u.
                  ext_write_file os target (ext_perm_or h.perm 420) h.body
                    (ext_restore_time os target h.mod_time) (remove_symlink os target u))
                (makes_dir 493 s)
                (λ u.
                  remove_symlink-Calls target u
                    (ext_write_file os target (ext_perm_or h.perm 420) h.body
                      (ext_restore_time os target h.mod_time) (remove_symlink os target u)).0
                    (ext_write_file-Calls target (ext_perm_or h.perm 420) h.body
                      (ext_restore_time os target h.mod_time) (remove_symlink os target u)
                      (λ v. ext_restore_time-Calls target h.mod_time v)))
          | is_other ↦ no_call s
        ]
