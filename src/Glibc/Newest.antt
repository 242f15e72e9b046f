-- ===== src/Glibc/Newest.antt =====
-- glibc.go: the version that is chosen for a kernel.
use bottle.Common.{
  List, [], ◌∷◌, ◌++◌, ◌≡◌, refl, sym, ap, subst, Bool, true, false, Option, some, arith,
}
use bottle.Common.Lists.{is_empty, All}
use bottle.Common.Text.{Bytes}
use bottle.Glibc.{
  Fit, unknown, fits, too_new, fit_of, first_fit, from_newest_fit, newest_glibc_for_kernel,
}
use bottle.Sonames.{from_newest}
use bottle.Version.{Ver}

abbrev pub is_fit : Fit → Bool
is_fit fits = true
is_fit unknown = false
is_fit too_new = false

-- The first version of a list that fits.
abbrev pub IsFirstFit : (Ver → Fit) → List Ver → Bytes → Type 0
IsFirstFit fit vs raw =
    (newer : List Ver) × (v : Ver) × (older : List Ver) × (vs ≡ newer ++ v ∷ older)
    × (raw ≡ v.raw)
    × (fit v ≡ fits)
    × All (λ u. is_fit (fit u) ≡ false) newer

module _ (fit : Ver → Fit) where
  -- The step past a version that does not fit.
  IsFirstFit-past :
      (v : Ver) (vs : List Ver) (raw : Bytes)
      → is_fit (fit v) ≡ false
      → IsFirstFit fit vs raw
      → IsFirstFit fit (v ∷ vs) raw
  IsFirstFit-past v vs raw h (newer, u, older, e, same, good, none_newer) =
      (v ∷ newer, u, older, ap (λ l. v ∷ l) e, same, good, (h, none_newer))

  first_fit-IsFirstFit :
      (vs : List Ver) → is_empty (first_fit fit vs) ≡ false → IsFirstFit fit vs (first_fit fit vs)
  unfolding first_fit
  first_fit-IsFirstFit [] h = ground arith
  first_fit-IsFirstFit (v ∷ vs) h = go (fit v) refl (λ k. first_fit-IsFirstFit vs k)
    where
      go :
          (f : Fit)
          → fit v ≡ f
          → (is_empty (first_fit fit vs) ≡ false → IsFirstFit fit vs (first_fit fit vs))
          → IsFirstFit fit (v ∷ vs) (first_fit fit (v ∷ vs))
      go fits e later =
          let same : first_fit fit (v ∷ vs) ≡ v.raw = ground arith in ([], v, vs, refl, same, e, tt)
      go unknown e later =
          let same : first_fit fit (v ∷ vs) ≡ first_fit fit vs = ground arith in
          subst (IsFirstFit fit (v ∷ vs)) (sym same)
            (IsFirstFit-past v vs (first_fit fit vs) (ground arith) (later (ground arith)))
      go too_new e later =
          let same : first_fit fit (v ∷ vs) ≡ first_fit fit vs = ground arith in
          subst (IsFirstFit fit (v ∷ vs)) (sym same)
            (IsFirstFit-past v vs (first_fit fit vs) (ground arith) (later (ground arith)))

  -- The newest version is too new, and behind it stands the first that fits.
  abbrev pub IsChosen : List Ver → Bytes → Type 0
  IsChosen vs raw =
      (newest : Ver) × (older : List Ver) × (vs ≡ newest ∷ older)
      × (fit newest ≡ too_new)
      × IsFirstFit fit older raw

  from_newest_fit-IsChosen :
      (vs : List Ver)
      → is_empty (from_newest_fit fit vs) ≡ false
      → IsChosen vs (from_newest_fit fit vs)
  unfolding from_newest_fit
  from_newest_fit-IsChosen [] h = ground arith
  from_newest_fit-IsChosen (v ∷ older) h = go (fit v) refl
    where
      go : (f : Fit) → fit v ≡ f → IsChosen (v ∷ older) (from_newest_fit fit (v ∷ older))
      go too_new e =
          let same : from_newest_fit fit (v ∷ older) ≡ first_fit fit older = ground arith in
          let found = first_fit-IsFirstFit older (ground arith) in
          (v, older, refl, e, subst (IsFirstFit fit older) (sym same) found)
      go fits e = ground arith
      go unknown e = ground arith

-- Where `newest_glibc_for_kernel` names a version, it is one of the versions listed that is known to
-- run on the kernel; the newest version is known not to; and none of those between the two is known
-- to run on it.
pub newest_glibc_for_kernel-IsChosen :
    (vs : List Ver) (min_kernel : Bytes → Option Bytes) (kernel : Bytes)
    → is_empty (newest_glibc_for_kernel (some vs) min_kernel kernel) ≡ false
    → IsChosen
        (fit_of min_kernel kernel)
        (from_newest vs)
        (newest_glibc_for_kernel (some vs) min_kernel kernel)
unfolding newest_glibc_for_kernel
newest_glibc_for_kernel-IsChosen vs min_kernel kernel h =
    from_newest_fit-IsChosen (fit_of min_kernel kernel) (from_newest vs) h
