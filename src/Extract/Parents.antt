-- ===== src/Extract/Parents.antt =====
-- extract.go: what the test of the parents of a path shows.
use bottle.Common.{
  List, [], ◌∷◌, ◌++◌, ◌≡◌, ◌≢◌, ◌⊎◌, inl, inr, refl, sym, ap, ◌∙◌, subst, Bool, true, false,
  Option, none, some, arith, append_assoc, append-nil,
}
use bottle.Common.Lists.{All, All-append}
use bottle.Common.Paths.{slashed, join_path}
use bottle.Common.Paths.Names.{IsName, names-IsPart, split_byte_names, slashed-append}
use bottle.Common.Paths.Rooted.{join_path_name}
use bottle.Common.Text.{Bytes, codes, cut_prefix, split_byte, trim_prefix}
use bottle.Common.Text.Cuts.{cut_prefix-append}
use bottle.Extract.{Os, cross_parts, ext_safe_parents}

-- `lstat` fails below a path on which it fails.
pub record IsTree {S : Type 0} (os : Os S) : Type 0 where
  pub absent :
      (ps : List Bytes) (p : Bytes) (s : S)
      → os.lstat (slashed ps) s ≡ none
      → os.lstat (slashed (ps ++ p ∷ [])) s ≡ none

module _ {S : Type 0} (os : Os S) where
  -- Between the directory `ps` and its path `es` no directory is a symlink.
  abbrev pub IsUncrossed : List Bytes → List Bytes → S → Type 0
  IsUncrossed ps es s =
      (f : Bytes) (fs : List Bytes) (b : Bytes) (bs : List Bytes)
      → es ≡ (f ∷ fs) ++ b ∷ bs
      → os.lstat (slashed (ps ++ f ∷ fs)) s ≢ some true

  module _ (tree : IsTree os) where
    absent_below :
        (ps qs : List Bytes) (s : S)
        → os.lstat (slashed ps) s ≡ none
        → os.lstat (slashed (ps ++ qs)) s ≡ none
    absent_below ps [] s h = subst (λ t. os.lstat (slashed t) s ≡ none) (sym (append-nil ps)) h
    absent_below ps (q ∷ qs) s h =
        subst (λ t. os.lstat (slashed t) s ≡ none) (append_assoc ps (q ∷ []) qs)
          (absent_below (ps ++ q ∷ []) qs s (tree.absent ps q s h))

    IsUncrossed-absent :
        (ps : List Bytes) (e : Bytes) (es : List Bytes) (s : S)
        → os.lstat (slashed (ps ++ e ∷ [])) s ≡ none
        → IsUncrossed ps (e ∷ es) s
    IsUncrossed-absent ps e es s gone f fs b bs same linked =
        let first : e ≡ f = cc in
        let there : os.lstat (slashed (ps ++ f ∷ fs)) s ≡ none =
          subst (λ t. os.lstat (slashed t) s ≡ none) (append_assoc ps (f ∷ []) fs)
            (absent_below (ps ++ f ∷ []) fs s
              (subst (λ t. os.lstat (slashed (ps ++ t ∷ [])) s ≡ none) first gone)) in
        absurd (ground arith)

    IsUncrossed-one : (ps : List Bytes) (e : Bytes) (s : S) → IsUncrossed ps (e ∷ []) s
    IsUncrossed-one ps e s f [] b bs same linked = absurd cc
    IsUncrossed-one ps e s f (g ∷ gs) b bs same linked = absurd cc

    IsUncrossed-step :
        (ps : List Bytes) (e : Bytes) (es : List Bytes) (s : S)
        → os.lstat (slashed (ps ++ e ∷ [])) s ≡ some false
        → IsUncrossed (ps ++ e ∷ []) es s
        → IsUncrossed ps (e ∷ es) s
    IsUncrossed-step ps e es s plain later f [] b bs same linked =
        let first : e ≡ f = cc in
        let there : os.lstat (slashed (ps ++ f ∷ [])) s ≡ some false =
          subst (λ t. os.lstat (slashed (ps ++ t ∷ [])) s ≡ some false) first plain in
        absurd (ground arith)
    IsUncrossed-step ps e es s plain later f (g ∷ gs) b bs same linked =
        let first : e ≡ f = cc in
        let rest : es ≡ (g ∷ gs) ++ b ∷ bs = cc in
        later g gs b bs rest (
          subst (λ t. os.lstat (slashed t) s ≡ some true)
            (ap (λ h. ps ++ h ∷ g ∷ gs) (sym first) ∙ sym (append_assoc ps (e ∷ []) (g ∷ gs)))
            linked)

    cross_parts_step :
        (target cur there : Bytes) (p q : Bytes) (ps : List Bytes) (s : S)
        → join_path (cur ∷ p ∷ []) ≡ there
        → cross_parts os target cur (p ∷ q ∷ ps) s ≡ none
        → (os.lstat there s ≡ none)
          ⊎ ((os.lstat there s ≡ some false) × (cross_parts os target there (q ∷ ps) s ≡ none))
    unfolding cross_parts
    cross_parts_step target cur there p q ps s h e =
        subst
          (λ t.
            (os.lstat t s ≡ none)
            ⊎ ((os.lstat t s ≡ some false) × (cross_parts os target t (q ∷ ps) s ≡ none)))
          h (stat_cases (os.lstat (join_path (cur ∷ p ∷ [])) s) refl)
      where
        stat_cases :
            (o : Option Bool)
            → os.lstat (join_path (cur ∷ p ∷ [])) s ≡ o
            → (os.lstat (join_path (cur ∷ p ∷ [])) s ≡ none)
              ⊎ ((os.lstat (join_path (cur ∷ p ∷ [])) s ≡ some false)
                  × (cross_parts os target (join_path (cur ∷ p ∷ [])) (q ∷ ps) s ≡ none))
        stat_cases none k = inl k
        stat_cases (some true) k = absurd (ground arith)
        stat_cases (some false) k = inr (k, ground arith)

    cross_parts-IsUncrossed :
        (target p : Bytes) (ps es : List Bytes) (s : S)
        → All IsName (p ∷ ps)
        → All IsName es
        → cross_parts os target (slashed (p ∷ ps)) es s ≡ none
        → IsUncrossed (p ∷ ps) es s
    cross_parts-IsUncrossed target p ps [] s h k e = λ f fs b bs same linked. absurd cc
    cross_parts-IsUncrossed target p ps (c ∷ []) s h k e = IsUncrossed-one (p ∷ ps) c s
    cross_parts-IsUncrossed target p ps (c ∷ d ∷ es) s h (k, ks) e =
        elim (cross_parts_step target (slashed (p ∷ ps)) (slashed ((p ∷ ps) ++ c ∷ [])) c d es s
          (join_path_name p ps c h k) e) [
            | inl gone ↦ IsUncrossed-absent (p ∷ ps) c (d ∷ es) s gone
            | inr (plain, later) ↦ IsUncrossed-step (p ∷ ps) c (d ∷ es) s plain (
                cross_parts-IsUncrossed target p (ps ++ c ∷ []) (d ∷ es) s
                  (h.0, All-append IsName ps (c ∷ []) h.1 (k, tt)) ks later)
          ]

    ext_safe_parents-cross_parts :
        (p : Bytes) (ps : List Bytes) (e : Bytes) (es : List Bytes) (s : S)
        → All IsName (e ∷ es)
        → ext_safe_parents os (slashed (p ∷ ps)) (slashed ((p ∷ ps) ++ e ∷ es)) s
          ≡ cross_parts os (slashed ((p ∷ ps) ++ e ∷ es)) (slashed (p ∷ ps)) (e ∷ es) s
    unfolding ext_safe_parents trim_prefix
    ext_safe_parents-cross_parts p ps e es s h =
        let parts = names-IsPart (e ∷ es) h in
        let text : slashed ((p ∷ ps) ++ e ∷ es)
            ≡ (slashed (p ∷ ps) ++ codes "/") ++ (e ++ slashed es) =
          slashed-append (p ∷ ps) (e ∷ es)
          ∙ sym (append_assoc (slashed (p ∷ ps)) (codes "/") (e ++ slashed es)) in
        let cut : cut_prefix (slashed (p ∷ ps) ++ codes "/") (slashed ((p ∷ ps) ++ e ∷ es))
            ≡ some (e ++ slashed es) =
          ap (cut_prefix (slashed (p ∷ ps) ++ codes "/")) text
          ∙ cut_prefix-append (slashed (p ∷ ps) ++ codes "/") (e ++ slashed es) in
        ap
          (λ o.
            cross_parts os (slashed ((p ∷ ps) ++ e ∷ es)) (slashed (p ∷ ps))
              (split_byte b'/' (elim o [ some rest ↦ rest | none ↦ slashed ((p ∷ ps) ++ e ∷ es) ]))
              s)
          cut
        ∙ ap (λ t. cross_parts os (slashed ((p ∷ ps) ++ e ∷ es)) (slashed (p ∷ ps)) t s)
            (split_byte_names e es parts.0 parts.1)

    -- Where `extSafeParents` lets a path below the directory pass, no directory between the two is a
    -- symlink.
    pub ext_safe_parents-IsUncrossed :
        (p : Bytes) (ps es : List Bytes) (s : S)
        → All IsName (p ∷ ps)
        → All IsName es
        → ext_safe_parents os (slashed (p ∷ ps)) (slashed ((p ∷ ps) ++ es)) s ≡ none
        → IsUncrossed (p ∷ ps) es s
    ext_safe_parents-IsUncrossed p ps [] s h k e = λ f fs b bs same linked. absurd cc
    ext_safe_parents-IsUncrossed p ps (c ∷ es) s h k e =
        cross_parts-IsUncrossed (slashed ((p ∷ ps) ++ c ∷ es)) p ps (c ∷ es) s h k
          (sym (ext_safe_parents-cross_parts p ps c es s k) ∙ e)
