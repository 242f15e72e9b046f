-- ===== src/Common/Text/Cuts.antt =====
-- Where `strings.LastIndex` cuts a text that was put together round a separator.
use Prim.Native.Nat.{ℕ}
use mathlib.Core.Bool.{false}
use mathlib.Core.List.{[], ◌∷◌, ◌++◌}
use mathlib.Core.Option.{none, some}
use mathlib.Core.Path.{◌≡◌, refl}
use native.Mathlib.Omega.{arith}
use bottle.Common.Lists.{All, All-append}
use bottle.Common.Tests.{◌==◌}
use bottle.Common.Text.{Bytes, cut_prefix, last_cut}

-- The text does not hold the byte.
abbrev pub Lacks : ℕ → Bytes → Type 0
Lacks b = All (λ c. (b == c) ≡ false)

pub cut_prefix-append : (p s : Bytes) → cut_prefix p (p ++ s) ≡ some s
unfolding cut_prefix
cut_prefix-append [] s = refl
cut_prefix-append (c ∷ p) s = ground (arith, cut_prefix-append p s)

module _ (b : ℕ) (sep : Bytes) where
  last_cut-none : (t : Bytes) → Lacks b t → last_cut (b ∷ sep) t ≡ none
  unfolding last_cut
  last_cut-none [] h = refl
  last_cut-none (c ∷ t) (h, hs) = ground (arith, last_cut-none t hs)

  last_cut_here :
      (t : Bytes) → Lacks b sep → Lacks b t → last_cut (b ∷ sep) (b ∷ (sep ++ t)) ≡ some ([], t)
  unfolding last_cut
  last_cut_here t hs ht = ground (
    arith,
    last_cut-none (sep ++ t) (All-append (λ c. (b == c) ≡ false) sep t hs ht),
    cut_prefix-append sep t,
  )

  -- The last separator is the one that was put in, where its first byte is not behind it.
  pub last_cut-append :
      (head tail : Bytes)
      → Lacks b sep
      → Lacks b tail
      → last_cut (b ∷ sep) (head ++ b ∷ (sep ++ tail)) ≡ some (head, tail)
  unfolding last_cut
  last_cut-append [] tail hs ht = last_cut_here tail hs ht
  last_cut-append (c ∷ head) tail hs ht = rw (last_cut-append head tail hs ht)
