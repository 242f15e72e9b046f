-- ===== src/Constraint/Print.antt =====
-- Constraint texts printed from comparators, and how one comparator is read back.
use bottle.Common.{ℕ, List, [], ◌∷◌, ◌++◌, ◌≡◌, refl, true, false, none, arith}
use bottle.Common.Lists.{All, All-append, All-map}
use bottle.Common.Tests.{◌==◌}
use bottle.Common.Text.{
  Bytes, cut_prefix, trim_space, trim_both, trim_both_kept, is_quote, is_space,
}
use bottle.VersionString.{is_version_byte}
use bottle.Constraint.{Op, ge, le, gt, lt, caret, tilde, exact, read_operator, is_angle}

-- One comparator: an operator and the text of a version.
pub record Comparator : Type 0 where
  pub op : Op
  pub text : Bytes

abbrev pub lead : Op → ℕ
lead ge = b'>'
lead gt = b'>'
lead le = b'<'
lead lt = b'<'
lead caret = b'^'
lead tilde = b'~'
lead exact = b'='

abbrev pub mark : Op → Bytes
mark ge = b'=' ∷ []
mark le = b'=' ∷ []
mark gt = []
mark lt = []
mark caret = []
mark tilde = []
mark exact = []

abbrev pub print_tail : Comparator → Bytes
print_tail c = mark c.op ++ c.text

abbrev pub print_one : Comparator → Bytes
print_one c = lead c.op ∷ print_tail c

abbrev pub print_all : List Comparator → Bytes
print_all [] = []
print_all (c ∷ cs) = print_one c ++ print_all cs

abbrev pub IsRange : Op → Type 0
IsRange op = is_angle (lead op) ≡ true

abbrev pub IsVersionText : Bytes → Type 0
IsVersionText = All (λ c. is_version_byte c ≡ true)

-- A byte that no cut and no trim looks for.
pub record IsInner (c : ℕ) : Type 0 where
  pub space : is_space c ≡ false
  pub quote : is_quote c ≡ false
  pub bar : (c == b'|') ≡ false

pub IsInner-version_byte : (c : ℕ) → is_version_byte c ≡ true → IsInner c
IsInner-version_byte c h = ground arith

pub version_byte-not-angle : (c : ℕ) → is_version_byte c ≡ true → is_angle c ≡ false
version_byte-not-angle c h = ground arith

pub trim_space_kept : (s : Bytes) → All IsInner s → trim_space s ≡ s
unfolding trim_space
trim_space_kept s h = trim_both_kept is_space s (All-map (λ c (k : IsInner c). k.space) s h)

-- A byte that no trim removes.
abbrev pub IsVisible : ℕ → Type 0
IsVisible c = (is_space c ≡ false) × (is_quote c ≡ false)

pub visible : (s : Bytes) → All IsInner s → All IsVisible s
visible s h = All-map (λ c (k : IsInner c). (k.space, k.quote)) s h

pub core_kept : (s : Bytes) → All IsVisible s → trim_space (trim_both is_quote s) ≡ s
unfolding trim_space
core_kept s h =
    rw (trim_both_kept is_quote s (All-map (λ c (k : IsVisible c). k.1) s h))
      (trim_both_kept is_space s (All-map (λ c (k : IsVisible c). k.0) s h))

pub IsInner-mark : (op : Op) → All IsInner (mark op)
IsInner-mark ge = ground arith
IsInner-mark le = ground arith
IsInner-mark gt = tt
IsInner-mark lt = tt
IsInner-mark caret = tt
IsInner-mark tilde = tt
IsInner-mark exact = tt

pub IsInner-lead : (op : Op) → IsInner (lead op)
IsInner-lead op = ground arith

pub mark-not-angle : (op : Op) → All (λ c. is_angle c ≡ false) (mark op)
mark-not-angle ge = (refl, tt)
mark-not-angle le = (refl, tt)
mark-not-angle gt = tt
mark-not-angle lt = tt
mark-not-angle caret = tt
mark-not-angle tilde = tt
mark-not-angle exact = tt

module _ (c : Comparator) (valid : IsVersionText c.text) where
  pub IsInner-text : All IsInner c.text
  IsInner-text = All-map IsInner-version_byte c.text valid

  pub IsInner-print_tail : All IsInner (print_tail c)
  IsInner-print_tail = All-append IsInner (mark c.op) c.text (IsInner-mark c.op) IsInner-text

  pub IsInner-print_one : All IsInner (print_one c)
  IsInner-print_one = (IsInner-lead c.op, IsInner-print_tail)

  pub print_tail-not-angle : All (λ b. is_angle b ≡ false) (print_tail c)
  print_tail-not-angle =
      All-append (λ b. is_angle b ≡ false) (mark c.op) c.text (mark-not-angle c.op)
        (All-map version_byte-not-angle c.text valid)

-- A text of a version does not begin like the second byte of `>=`.
pub cut_prefix-equals : (s : Bytes) → IsVersionText s → cut_prefix (b'=' ∷ []) s ≡ none
unfolding cut_prefix
cut_prefix-equals [] h = refl
cut_prefix-equals (c ∷ s) h = ground arith

pub read_operator-print_one :
    (op : Op) (text : Bytes)
    → IsVersionText text
    → read_operator (lead op ∷ (mark op ++ text)) ≡ (op, text)
unfolding read_operator
read_operator-print_one ge text h = rw (trim_space_kept text (All-map IsInner-version_byte text h))
read_operator-print_one le text h = rw (trim_space_kept text (All-map IsInner-version_byte text h))
read_operator-print_one gt text h =
    rw (cut_prefix-equals text h, trim_space_kept text (All-map IsInner-version_byte text h))
read_operator-print_one lt text h =
    rw (cut_prefix-equals text h, trim_space_kept text (All-map IsInner-version_byte text h))
read_operator-print_one caret text h = refl
read_operator-print_one tilde text h = refl
read_operator-print_one exact text h = refl
