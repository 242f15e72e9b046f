-- ===== src/Glibc/Notes.antt =====
-- kernel.go: the note of a glibc is read within its bounds.
use bottle.Common.{
  ℕ, ◌+◌, ◌-◌, ◌≤◌, [], ◌∷◌, ◌≡◌, refl, ap, ◌∙◌, ◌++◌, inl, inr, Bool, true, false, ◌||◌, not,
  arith,
}
use bottle.Common.Decimal.{decimal}
use bottle.Common.Lists.{length, take}
use bottle.Common.Result.{Result, ok, err, ◌>>=◌}
use bottle.Common.Tests.{Bool-cases, ltb, ◌==◌, if◌then◌else◌}
use bottle.Common.Text.{Bytes}
use bottle.Extract.{drop}
use bottle.Glibc.{
  NoteError, panicked, truncated, not_abi_tag, bad_desc, not_linux, read_at, desc_off,
  kernel_of_desc, kernel_of_head, glibc_min_kernel,
}
use Prim.Native.Nat.{zero, suc}

abbrev pub is_panic {ℓ} : {A : Type ℓ} → Result NoteError A → Bool
is_panic (err panicked) = true
is_panic (err truncated) = false
is_panic (err (not_abi_tag k)) = false
is_panic (err bad_desc) = false
is_panic (err (not_linux n)) = false
is_panic (ok a) = false

length-drop : (n : ℕ) (s : Bytes) → length (drop n s) ≡ length s - n
length-drop zero s = omega arith
length-drop (suc n) [] = omega arith
length-drop (suc n) (c ∷ s) = omega (arith, length-drop n s)

module _ (uint32 : Bytes → ℕ) where
  -- A read within the slice goes on with a number.
  read_at_calm :
      {A : Type 0} (s : Bytes) (off : ℕ) (f : ℕ → Result NoteError A)
      → off + 4 ≤ length s
      → ((n : ℕ) → is_panic (f n) ≡ false)
      → is_panic (read_at uint32 s off >>= f) ≡ false
  read_at_calm s off f h calm = ground (arith, calm (uint32 (take 4 (drop off s))))

  kernel_of_desc_calm :
      (desc : Bytes) → 16 ≤ length desc → is_panic (kernel_of_desc uint32 desc) ≡ false
  unfolding kernel_of_desc
  kernel_of_desc_calm desc h =
      read_at_calm desc 0 (λ os. if not (os == 0) then err (not_linux os) else numbers)
        (omega (arith, h))
        (λ os. elim (Bool-cases (os == 0)) [
          | inl linux ↦ ground (arith, numbers_calm)
          | inr other ↦ ground arith
        ])
    where
      numbers : Result NoteError Bytes
      numbers = read_at uint32 desc 4 >>= λ a.
          (read_at uint32 desc 8 >>= λ b.
          (read_at uint32 desc 12 >>= λ c.
          ok (decimal a ++ (b'.' ∷ (decimal b ++ (b'.' ∷ decimal c))))))

      numbers_calm : is_panic numbers ≡ false
      numbers_calm =
          read_at_calm desc 4
            (λ a. read_at uint32 desc 8 >>= λ b.
              (read_at uint32 desc 12 >>= λ c.
              ok (decimal a ++ (b'.' ∷ (decimal b ++ (b'.' ∷ decimal c))))))
            (omega (arith, h))
            (λ a.
              read_at_calm desc 8
                (λ b. read_at uint32 desc 12 >>= λ c.
                  ok (decimal a ++ (b'.' ∷ (decimal b ++ (b'.' ∷ decimal c)))))
                (omega (arith, h))
                (λ b.
                  read_at_calm desc 12
                    (λ c. ok (decimal a ++ (b'.' ∷ (decimal b ++ (b'.' ∷ decimal c)))))
                    (omega (arith, h)) (λ c. refl)))

  kernel_of_head_calm :
      (s : Bytes) (namesz descsz typ : ℕ)
      → is_panic (kernel_of_head uint32 s namesz descsz typ) ≡ false
  kernel_of_head_calm s namesz descsz typ = elim (Bool-cases (typ == 1)) [
    | inr other ↦
        let same : kernel_of_head uint32 s namesz descsz typ ≡ err (not_abi_tag typ) =
          unfold kernel_of_head in (ground arith) in
        ap is_panic same
    | inl tag ↦
        elim (Bool-cases (ltb descsz 16 || ltb (length s) (desc_off uint32 namesz + descsz))) [
          | inl short ↦
              let same : kernel_of_head uint32 s namesz descsz typ ≡ err bad_desc =
                unfold kernel_of_head in (ground arith) in
              ap is_panic same
          | inr fits ↦
              let off = desc_off uint32 namesz in
              let same : kernel_of_head uint32 s namesz descsz typ
                  ≡ kernel_of_desc uint32 (drop off s) =
                unfold kernel_of_head in (ground arith) in
              let long : 16 ≤ length (drop off s) = ground (arith, length-drop off s) in
              ap is_panic same ∙ kernel_of_desc_calm (drop off s) long
        ]
  ]

  -- Whatever the bytes of the section and the numbers in it, also where 32 bits wrap round,
  -- `glibc_min_kernel` reads no byte beyond the section: it returns a kernel or an error.
  pub glibc_min_kernel_calm : (s : Bytes) → is_panic (glibc_min_kernel uint32 s) ≡ false
  glibc_min_kernel_calm s = elim (Bool-cases (ltb (length s) 12)) [
    | inl short ↦
        let same : glibc_min_kernel uint32 s ≡ err truncated =
          unfold glibc_min_kernel in (ground arith) in
        ap is_panic same
    | inr long ↦
        let same : glibc_min_kernel uint32 s ≡ (
            read_at uint32 s 0 >>= λ namesz.
            (read_at uint32 s 4 >>= λ descsz.
            (read_at uint32 s 8 >>= λ typ. kernel_of_head uint32 s namesz descsz typ))) =
          unfold glibc_min_kernel in (ground arith) in
        ap is_panic same
        ∙ read_at_calm s 0
            (λ namesz. read_at uint32 s 4 >>= λ descsz.
              (read_at uint32 s 8 >>= λ typ. kernel_of_head uint32 s namesz descsz typ))
            (ground arith)
            (λ namesz.
              read_at_calm s 4
                (λ descsz. read_at uint32 s 8 >>= λ typ. kernel_of_head uint32 s namesz descsz typ)
                (ground arith)
                (λ descsz.
                  read_at_calm s 8 (λ typ. kernel_of_head uint32 s namesz descsz typ) (ground arith)
                    (λ typ. kernel_of_head_calm s namesz descsz typ)))
  ]
