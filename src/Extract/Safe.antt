-- ===== src/Extract/Safe.antt =====
-- extract.go: where an archive is unpacked to.
use bottle.Common.{ℕ, List, [], ◌∷◌, ◌++◌, ◌≡◌, refl, subst, Option, none, some}
use bottle.Common.Lists.{All}
use bottle.Common.Paths.{slashed}
use bottle.Common.Paths.Names.{IsName}
use bottle.Common.Result.{Result, ok, err}
use bottle.Common.Text.{Bytes}
use bottle.Extract.{
  is_dir, is_symlink, is_link, is_reg, is_other, Header, Next, entry, broken, ExtractError, Os,
  ext_safe_target, ext_safe_parents, place, put_entry, extract_entry, extract,
}
use bottle.Extract.Calls.{Calls, Entries, no_entry, then_entry, place-Calls}
use bottle.Extract.Parents.{IsTree, ext_safe_parents-IsUncrossed}
use bottle.Extract.Targets.{IsBelow, ext_safe_target-IsBelow}

module _ {S : Type 0} (os : Os S) (p : Bytes) (ps : List Bytes) where
  Entries-append : (s u v : S) → Entries os p ps s u → Entries os p ps u v → Entries os p ps s v
  Entries-append s u v (no_entry t) later = later
  Entries-append s u v (then_entry es s1 t u1 names free calls rest) later =
      then_entry es s1 t v names free calls (Entries-append t u1 v rest later)

  module _ (tree : IsTree os) (names : All IsName (p ∷ ps)) (strip : ℕ) where
    checked_entry :
        (target : Bytes) (h : Header) (s : S)
        → IsBelow (p ∷ ps) target
        → (o : Option ExtractError) → ext_safe_parents os (slashed (p ∷ ps)) target s ≡ o
        → Entries os p ps s
            (elim o as (λ _. S × Option ExtractError) [
              | some e ↦ (s, some e)
              | none ↦ place os (slashed (p ∷ ps)) strip target h s
            ]).0
    checked_entry target h s below (some e) same = no_entry s
    checked_entry target h s (es, real, text) none same =
        let u = (place os (slashed (p ∷ ps)) strip target h s).0 in
        then_entry es s u u real
          (ext_safe_parents-IsUncrossed os tree p ps es s names real
            (subst (λ t. ext_safe_parents os (slashed (p ∷ ps)) t s ≡ none) text same))
          (subst (λ t. Calls os p ps t s u) text (place-Calls os p ps strip target h s names))
          (no_entry u)

    put_entry-Entries :
        (target : Bytes) (h : Header) (s : S)
        → IsBelow (p ∷ ps) target
        → Entries os p ps s (put_entry os (slashed (p ∷ ps)) strip target h s).0
    unfolding put_entry
    put_entry-Entries target h s below =
        let parents = ext_safe_parents os (slashed (p ∷ ps)) target s in
        elim h.kind
          as (λ k.
            Entries os p ps s
              (put_entry os (slashed (p ∷ ps)) strip target (record h { kind = k }) s).0) [
                | is_dir ↦ checked_entry target (record h { kind = is_dir }) s below parents refl
                | is_symlink ↦
                    checked_entry target (record h { kind = is_symlink }) s below parents refl
                | is_link ↦ checked_entry target (record h { kind = is_link }) s below parents refl
                | is_reg ↦ checked_entry target (record h { kind = is_reg }) s below parents refl
                | is_other ↦ no_entry s
              ]

    named_entry :
        (h : Header) (s : S) (r : Result ExtractError (Option Bytes))
        → ext_safe_target (slashed (p ∷ ps)) h.name strip ≡ r
        → Entries os p ps s
            (elim r as (λ _. S × Option ExtractError) [
              | err e ↦ (s, some e)
              | ok none ↦ (s, none)
              | ok (some target) ↦ put_entry os (slashed (p ∷ ps)) strip target h s
            ]).0
    named_entry h s (err e) same = no_entry s
    named_entry h s (ok none) same = no_entry s
    named_entry h s (ok (some target)) same =
        put_entry-Entries target h s
          ((ext_safe_target-IsBelow p ps strip names).0 h.name target same)

    extract_entry-Entries :
        (n : Next) (s : S) → Entries os p ps s (extract_entry os (slashed (p ∷ ps)) strip n s).0
    unfolding extract_entry
    extract_entry-Entries broken s = no_entry s
    extract_entry-Entries (entry h) s =
        named_entry h s (ext_safe_target (slashed (p ∷ ps)) h.name strip) refl

    stopped :
        (s : S) (r : S × Option ExtractError) (next : S → S × Option ExtractError)
        → Entries os p ps s r.0
        → ((u : S) → Entries os p ps u (next u).0)
        → Entries os p ps s
            (elim r.1 as (λ _. S × Option ExtractError) [
              | some e ↦ (r.0, some e)
              | none ↦ next r.0
            ]).0
    stopped s (u, some e) next first rest = first
    stopped s (u, none) next first rest = Entries-append s u (next u).0 first (rest u)

    -- Whatever archive is unpacked into a directory that is given as a path of names, and wherever
    -- `Extract` stops, all its calls but those that read are one entry after another: each entry has a
    -- path that is the directory or below it, every call of the entry writes at that path, or makes it
    -- or its parent, a hard link is made of a path that is the directory or below it, and when the entry
    -- begins no directory between the two is a symlink. This holds of any file system in which nothing
    -- is found below a path that is not found.
    pub extract-Entries :
        (archive : List Next) (s : S)
        → Entries os p ps s (extract os (slashed (p ∷ ps)) strip archive s).0
    unfolding extract
    extract-Entries [] s = no_entry s
    extract-Entries (n ∷ ns) s =
        stopped s (extract_entry os (slashed (p ∷ ps)) strip n s)
          (λ u. extract os (slashed (p ∷ ps)) strip ns u) (extract_entry-Entries n s)
          (λ u. extract-Entries ns u)

module _ {S : Type 0} (os : Os S) (dest : Bytes) (strip : ℕ) where
  -- The rest of an archive, where the part before it was unpacked without an error.
  abbrev pub then_extract : List Next → S × Option ExtractError → S × Option ExtractError
  then_extract archive (s, some e) = (s, some e)
  then_extract archive (s, none) = extract os dest strip archive s

  then_extract-append :
      (n : Next) (xs ys : List Next) (r : S × Option ExtractError)
      → ((s : S)
          → extract os dest strip (xs ++ ys) s ≡ then_extract ys (extract os dest strip xs s))
      → (elim r.1 as (λ _. S × Option ExtractError) [
        | some e ↦ (r.0, some e)
        | none ↦ extract os dest strip (xs ++ ys) r.0
      ])
        ≡ then_extract ys (elim r.1 as (λ _. S × Option ExtractError) [
          | some e ↦ (r.0, some e)
          | none ↦ extract os dest strip xs r.0
        ])
  then_extract-append n xs ys (s, some e) later = refl
  then_extract-append n xs ys (s, none) later = later s

  -- An archive is unpacked entry by entry: of two parts the second is unpacked into what the first has
  -- left, and after an error in the first nothing of the second is unpacked and the error is the one
  -- of the first.
  pub extract-append :
      (xs ys : List Next) (s : S)
      → extract os dest strip (xs ++ ys) s ≡ then_extract ys (extract os dest strip xs s)
  unfolding extract
  extract-append [] ys s = refl
  extract-append (n ∷ xs) ys s =
      then_extract-append n xs ys (extract_entry os dest strip n s) (λ u. extract-append xs ys u)
