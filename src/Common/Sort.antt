-- ===== src/Common/Sort.antt =====
-- `sort.Strings`, as an insertion sort.
use Prim.Native.Nat.{Ordering, suc}
use bottle.Common.Lists.{any, length, All}
use mathlib.Core.Bool.{Bool, ◌||◌}
use mathlib.Core.Logic.{◌⊎◌, inl, inr, ◌≢◌}
use mathlib.Core.Path.{◌≡◌, refl, ap, ◌∙◌, subst}
use native.Mathlib.Omega.{arith}
use mathlib.Core.List.{List, [], ◌∷◌}
use bottle.Common.Text.{Bytes, cmp_bytes}

insert_text : Bytes → List Bytes → List Bytes
unfolding cmp_bytes
insert_text s [] = s ∷ []
insert_text s (t ∷ ts) =
    let rest = insert_text s ts in elim (cmp_bytes s t) [ Ordering.gt ↦ t ∷ rest | _ ↦ s ∷ t ∷ ts ]

unfoldable pub sort_texts : List Bytes → List Bytes
unfolding insert_text
sort_texts [] = []
sort_texts (s ∷ ts) = insert_text s (sort_texts ts)

length-insert_text : (s : Bytes) (ts : List Bytes) → length (insert_text s ts) ≡ suc (length ts)
unfolding insert_text
length-insert_text s [] = refl
length-insert_text s (t ∷ ts) = ground (arith, length-insert_text s ts)

pub length-sort_texts : (ts : List Bytes) → length (sort_texts ts) ≡ length ts
unfolding sort_texts
length-sort_texts [] = refl
length-sort_texts (s ∷ ts) = length-insert_text s (sort_texts ts) ∙ ap suc (length-sort_texts ts)

gt-cases : (o : Ordering) → (o ≡ Ordering.gt) ⊎ (o ≢ Ordering.gt)
gt-cases Ordering.gt = inl refl
gt-cases Ordering.eq = inr (λ e. cc)
gt-cases Ordering.lt = inr (λ e. cc)

insert_text_nil : (s : Bytes) → insert_text s [] ≡ s ∷ []
unfolding insert_text
insert_text_nil s = refl

insert_text_behind :
    (s t : Bytes) (ts : List Bytes)
    → cmp_bytes s t ≡ Ordering.gt
    → insert_text s (t ∷ ts) ≡ t ∷ insert_text s ts
unfolding insert_text
insert_text_behind s t ts h = ground arith

insert_text_front :
    (s t : Bytes) (ts : List Bytes)
    → cmp_bytes s t ≢ Ordering.gt
    → insert_text s (t ∷ ts) ≡ s ∷ t ∷ ts
unfolding insert_text
insert_text_front s t ts h = ground arith

module _ (P : Bytes → Type 0) where
  All-insert_text : (s : Bytes) (ts : List Bytes) → P s → All P ts → All P (insert_text s ts)
  unfolding insert_text
  All-insert_text s [] h _ = (h, tt)
  All-insert_text s (t ∷ ts) h (k, ks) = ground (arith, All-insert_text s ts h ks)

  -- Sorting keeps the texts.
  pub All-sort_texts : (ts : List Bytes) → All P ts → All P (sort_texts ts)
  unfolding sort_texts
  All-sort_texts [] h = tt
  All-sort_texts (t ∷ ts) (h, hs) = All-insert_text t (sort_texts ts) h (All-sort_texts ts hs)

  All-insert_text_back : (s : Bytes) (ts : List Bytes) → All P (insert_text s ts) → P s × All P ts
  All-insert_text_back s [] h = (subst (All P) (insert_text_nil s) h)
  All-insert_text_back s (t ∷ ts) h = elim (gt-cases (cmp_bytes s t)) [
    | inl more ↦
        let (k, ks) = subst (All P) (insert_text_behind s t ts more) h in
        let (here, rest) = All-insert_text_back s ts ks in (here, (k, rest))
    | inr less ↦ subst (All P) (insert_text_front s t ts less) h
  ]

  -- And it has no other texts.
  pub All-sort_texts_back : (ts : List Bytes) → All P (sort_texts ts) → All P ts
  unfolding sort_texts
  All-sort_texts_back [] h = tt
  All-sort_texts_back (t ∷ ts) h =
      let (here, rest) = All-insert_text_back t (sort_texts ts) h in
      (here, All-sort_texts_back ts rest)

-- Sorting keeps what a test finds.
any-insert_text :
    (p : Bytes → Bool) (s : Bytes) (ts : List Bytes) → any p (insert_text s ts) ≡ (p s || any p ts)
unfolding insert_text
any-insert_text p s [] = refl
any-insert_text p s (t ∷ ts) = ground (arith, any-insert_text p s ts)

pub any-sort_texts : (p : Bytes → Bool) (ts : List Bytes) → any p (sort_texts ts) ≡ any p ts
unfolding sort_texts
any-sort_texts p [] = refl
any-sort_texts p (t ∷ ts) =
    any-insert_text p t (sort_texts ts) ∙ ap (λ b. p t || b) (any-sort_texts p ts)
