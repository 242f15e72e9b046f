-- ===== src/Concrete/Fields.antt =====
-- concrete.go: what `field` writes can be read back one way only.
use bottle.Common.{ℕ, List, [], ◌∷◌, ◌++◌, ◌≡◌, ◌∙◌, refl, sym, ap, true, arith, append_assoc}
use bottle.Common.Decimal.{decimal}
use bottle.Common.Decimal.Unique.{decimal_inj, decimal-digits}
use bottle.Common.Lists.{length, All}
use bottle.Common.Text.{Bytes, is_digit}
use bottle.Concrete.{field, canon_sep}

head_of : ℕ → Bytes → ℕ
head_of d [] = d
head_of d (c ∷ s) = c

tail_of : Bytes → Bytes
tail_of [] = []
tail_of (c ∷ s) = s

pub cons_inj : (c d : ℕ) (s t : Bytes) → c ∷ s ≡ d ∷ t → (c ≡ d) × (s ≡ t)
unfolding head_of tail_of
cons_inj c d s t e = (ap (head_of 0) e, ap tail_of e)

-- Digits up to a colon are found whole.
digits_cut :
    (ms ns s t : Bytes)
    → All (λ c. is_digit c ≡ true) ms
    → All (λ c. is_digit c ≡ true) ns
    → ms ++ b':' ∷ s ≡ ns ++ b':' ∷ t
    → (ms ≡ ns) × (s ≡ t)
digits_cut [] [] s t h k e = (refl, (cons_inj b':' b':' s t e).1)
digits_cut [] (n ∷ ns) s t h (k, ks) e =
    let (same, rest) = cons_inj b':' n s (ns ++ b':' ∷ t) e in absurd (ground arith)
digits_cut (m ∷ ms) [] s t (h, hs) k e =
    let (same, rest) = cons_inj m b':' (ms ++ b':' ∷ s) t e in absurd (ground arith)
digits_cut (m ∷ ms) (n ∷ ns) s t (h, hs) (k, ks) e =
    let (same, rest) = cons_inj m n (ms ++ b':' ∷ s) (ns ++ b':' ∷ t) e in
    let (more, left) = digits_cut ms ns s t hs ks rest in (ground arith, left)

-- Texts of one length before two rests.
equal_cut : (p q s t : Bytes) → length p ≡ length q → p ++ s ≡ q ++ t → (p ≡ q) × (s ≡ t)
equal_cut [] [] s t h e = (refl, e)
equal_cut [] (d ∷ q) s t h e = absurd (omega arith)
equal_cut (c ∷ p) [] s t h e = absurd (omega arith)
equal_cut (c ∷ p) (d ∷ q) s t h e =
    let (same, rest) = cons_inj c d (p ++ s) (q ++ t) e in
    let (more, left) = equal_cut p q s t (omega arith) rest in (ground arith, left)

field_cons :
    (p : Bytes) (parts : List Bytes)
    → field (p ∷ parts) ≡ canon_sep ∷ (decimal (length p) ++ b':' ∷ (p ++ field parts))
unfolding field
field_cons p parts = refl

-- Equal texts come from equal lists of parts, whatever bytes the parts hold.
pub field_inj : (ps qs : List Bytes) → field ps ≡ field qs → ps ≡ qs
field_inj [] [] e = refl
field_inj [] (q ∷ qs) e = unfold field in (cc)
field_inj (p ∷ ps) [] e = unfold field in (cc)
field_inj (p ∷ ps) (q ∷ qs) e =
    let opened = sym (field_cons p ps) ∙ e ∙ field_cons q qs in
    let (_, written) =
      cons_inj canon_sep canon_sep (decimal (length p) ++ b':' ∷ (p ++ field ps))
        (decimal (length q) ++ b':' ∷ (q ++ field qs)) opened in
    let (count, text) =
      digits_cut (decimal (length p)) (decimal (length q)) (p ++ field ps) (q ++ field qs)
        (decimal-digits (length p)) (decimal-digits (length q)) written in
    let (first, rest) =
      equal_cut p q (field ps) (field qs) (decimal_inj (length p) (length q) count) text in
    let others = field_inj ps qs rest in ground arith

pub field-append : (ps qs : List Bytes) → field (ps ++ qs) ≡ field ps ++ field qs
field-append [] qs = unfold field in refl
field-append (p ∷ ps) qs =
    let more = field-append ps qs in
    let inner = append_assoc p (field ps) (field qs) in
    let outer = append_assoc (decimal (length p)) (b':' ∷ (p ++ field ps)) (field qs) in
    rw (field_cons p (ps ++ qs), field_cons p ps, more) (ground arith)
