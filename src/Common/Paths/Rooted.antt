-- ===== src/Common/Paths/Rooted.antt =====
-- What `path.Clean` makes of a rooted path.
use mathlib.Core.Bool.{true, false}
use mathlib.Core.List.{List, [], ◌∷◌, ◌++◌, append-nil}
use mathlib.Core.Logic.{◌⊎◌, inl, inr}
use mathlib.Core.Path.{◌≡◌, refl, sym, ap, ◌∙◌, subst}
use native.Mathlib.Omega.{arith}
use bottle.Common.Lists.{All, is_empty, All-append}
use bottle.Common.Paths.{push_part, push_parts, rooted, slashed, unstack, clean, join_path}
use bottle.Common.Paths.Names.{
  IsPart, IsName, split_byte-IsPart, names-IsPart, split_byte_names, slashed-append,
}
use bottle.Common.Tests.{Bool-cases}
use bottle.Common.Text.{Bytes, codes, bytes_eq, join, split_byte}

push_part_kept : (st : List Bytes) (p : Bytes) → is_empty p ≡ true → push_part true st p ≡ st
unfolding push_part
push_part_kept st p h = ground arith

push_part_dot :
    (st : List Bytes) (p : Bytes)
    → is_empty p ≡ false
    → bytes_eq p (codes ".") ≡ true
    → push_part true st p ≡ st
unfolding push_part
push_part_dot st p h k = ground arith

push_part_name :
    (st : List Bytes) (p : Bytes)
    → is_empty p ≡ false
    → bytes_eq p (codes ".") ≡ false
    → bytes_eq p (codes "..") ≡ false
    → push_part true st p ≡ p ∷ st
unfolding push_part
push_part_name st p h k m = ground arith

push_part_root :
    (p : Bytes)
    → is_empty p ≡ false
    → bytes_eq p (codes ".") ≡ false
    → bytes_eq p (codes "..") ≡ true
    → push_part true [] p ≡ []
unfolding push_part
push_part_root p h k m = ground arith

push_part_up :
    (top : Bytes) (st : List Bytes) (p : Bytes)
    → IsName top
    → is_empty p ≡ false
    → bytes_eq p (codes ".") ≡ false
    → bytes_eq p (codes "..") ≡ true
    → push_part true (top ∷ st) p ≡ st
unfolding push_part
push_part_up top st p (_, _, _, name) h k m = ground arith

push_part-IsName :
    (st : List Bytes) (p : Bytes) → All IsName st → IsPart p → All IsName (push_part true st p)
push_part-IsName st p names part = elim (Bool-cases (is_empty p)) [
  | inl empty ↦ subst (All IsName) (sym (push_part_kept st p empty)) names
  | inr filled ↦ elim (Bool-cases (bytes_eq p (codes "."))) [
    | inl dot ↦ subst (All IsName) (sym (push_part_dot st p filled dot)) names
    | inr other ↦ elim (Bool-cases (bytes_eq p (codes ".."))) [
      | inl up ↦ push_part_up-IsName st p names filled other up
      | inr plain ↦
          subst (All IsName) (sym (push_part_name st p filled other plain))
            ((part, filled, other, plain), names)
    ]
  ]
]
  where
    push_part_up-IsName :
        (st : List Bytes) (p : Bytes)
        → All IsName st
        → is_empty p ≡ false
        → bytes_eq p (codes ".") ≡ false
        → bytes_eq p (codes "..") ≡ true
        → All IsName (push_part true st p)
    push_part_up-IsName [] p h a b c = subst (All IsName) (sym (push_part_root p a b c)) tt
    push_part_up-IsName (top ∷ st) p (h, hs) a b c =
        subst (All IsName) (sym (push_part_up top st p h a b c)) hs

push_parts-IsName :
    (st ps : List Bytes) → All IsName st → All IsPart ps → All IsName (push_parts true st ps)
unfolding push_parts
push_parts-IsName st [] h k = h
push_parts-IsName st (p ∷ ps) h (k, ks) =
    push_parts-IsName (push_part true st p) ps (push_part-IsName st p h k) ks

unstack-IsName : (st ps : List Bytes) → All IsName st → All IsName ps → All IsName (unstack st ps)
unfolding unstack
unstack-IsName [] ps h k = k
unstack-IsName (p ∷ st) ps (h, hs) k = unstack-IsName st (p ∷ ps) hs (h, k)

unstack_step : (p : Bytes) (st qs : List Bytes) → unstack (p ∷ st) qs ≡ unstack st (p ∷ qs)
unfolding unstack
unstack_step p st qs = refl

unstack_done : (qs : List Bytes) → unstack [] qs ≡ qs
unfolding unstack
unstack_done qs = refl

-- Names are pushed one by one.
push_parts_names :
    (st ps qs : List Bytes)
    → All IsName ps
    → unstack (push_parts true st ps) qs ≡ unstack st (ps ++ qs)
unfolding push_parts
push_parts_names st [] qs h = refl
push_parts_names st (p ∷ ps) qs ((_, a, b, c), hs) =
    ap (λ t. unstack (push_parts true t ps) qs) (push_part_name st p a b c)
    ∙ push_parts_names (p ∷ st) ps qs hs
    ∙ unstack_step p st (ps ++ qs)

-- The names of a rooted path.
abbrev names_of : Bytes → List Bytes
names_of s = unstack (push_parts true [] (split_byte b'/' s)) []

names_of-IsName : (s : Bytes) → All IsName (names_of s)
names_of-IsName s =
    unstack-IsName (push_parts true [] (split_byte b'/' s)) []
      (push_parts-IsName [] (split_byte b'/' s) tt (split_byte-IsPart s)) tt

clean_names :
    (s : Bytes) (p : Bytes) (ps : List Bytes)
    → names_of s ≡ p ∷ ps
    → clean (b'/' ∷ s) ≡ slashed (p ∷ ps)
unfolding clean
clean_names s p ps e = ap rooted e

clean_root : (s : Bytes) → names_of s ≡ [] → clean (b'/' ∷ s) ≡ codes "/"
unfolding clean
clean_root s e = ap rooted e

list_cases : (ps : List Bytes) → (ps ≡ []) ⊎ ((q : Bytes) × (qs : List Bytes) × (ps ≡ q ∷ qs))
list_cases [] = inl refl
list_cases (q ∷ qs) = inr (q, qs, refl)

-- A rooted path is cleaned to the root, or to names behind slashes.
pub clean_cases :
    (s : Bytes)
    → (clean (b'/' ∷ s) ≡ codes "/")
      ⊎ ((p : Bytes) × (ps : List Bytes) × All IsName (p ∷ ps)
          × (clean (b'/' ∷ s) ≡ slashed (p ∷ ps)))
clean_cases s = elim (list_cases (names_of s)) [
  | inl e ↦ inl (clean_root s e)
  | inr (p, ps, e) ↦ inr (p, ps, subst (All IsName) e (names_of-IsName s), clean_names s p ps e)
]

-- A path of names is clean.
pub clean-slashed :
    (p : Bytes) (ps : List Bytes)
    → All IsName (p ∷ ps)
    → clean (slashed (p ∷ ps)) ≡ slashed (p ∷ ps)
clean-slashed p ps h =
    let parts = names-IsPart (p ∷ ps) h in
    clean_names (p ++ slashed ps) p ps (
      ap (λ t. unstack (push_parts true [] t) []) (split_byte_names p ps parts.0 parts.1)
      ∙ push_parts_names [] (p ∷ ps) [] h
      ∙ unstack_done ((p ∷ ps) ++ [])
      ∙ append-nil (p ∷ ps))

join_path_rooted : (s r : Bytes) → join_path ((b'/' ∷ s) ∷ r ∷ []) ≡ clean (b'/' ∷ (s ++ b'/' ∷ r))
unfolding join_path join
join_path_rooted s r = refl

-- One more name behind a path.
pub join_path_name :
    (p : Bytes) (ps : List Bytes) (q : Bytes)
    → All IsName (p ∷ ps)
    → IsName q
    → join_path (slashed (p ∷ ps) ∷ q ∷ []) ≡ slashed ((p ∷ ps) ++ q ∷ [])
join_path_name p ps q h k =
    join_path_rooted (p ++ slashed ps) q
    ∙ ap (λ t. clean (slashed (p ∷ ps) ++ b'/' ∷ t)) (sym (append-nil q))
    ∙ ap clean (sym (slashed-append (p ∷ ps) (q ∷ [])))
    ∙ clean-slashed p (ps ++ q ∷ []) (h.0, All-append IsName ps (q ∷ []) h.1 (k, tt))

-- What is joined to a path is cleaned to the root, or to names behind slashes.
pub join_path_cases :
    (p : Bytes) (ps : List Bytes) (r : Bytes)
    → (join_path (slashed (p ∷ ps) ∷ r ∷ []) ≡ codes "/")
      ⊎ ((q : Bytes) × (qs : List Bytes) × All IsName (q ∷ qs)
          × (join_path (slashed (p ∷ ps) ∷ r ∷ []) ≡ slashed (q ∷ qs)))
join_path_cases p ps r = elim (clean_cases ((p ++ slashed ps) ++ b'/' ∷ r)) [
  | inl e ↦ inl (join_path_rooted (p ++ slashed ps) r ∙ e)
  | inr (q, qs, h, e) ↦ inr (q, qs, h, join_path_rooted (p ++ slashed ps) r ∙ e)
]
