-- ===== src/Glibc.antt =====
-- glibc.go and kernel.go: the newest glibc that the kernel of a machine runs.
pub mod Newest
pub mod Notes
use Prim.Native.Nat.{◌+◌, ◌*◌, ◌/◌, ◌%◌, ◌^◌, Ordering}
use bottle.Common.{ℕ, List, [], ◌∷◌, ◌++◌, ◌&&◌, ◌||◌, not, Bool, true, false, Option, none, some}
use bottle.Common.Decimal.{decimal}
use bottle.Common.Lists.{length, is_empty, take}
use bottle.Common.Result.{Result, ok, err, ◌>>=◌}
use bottle.Common.Tests.{ltb, leb, ◌==◌, if◌then◌else◌}
use bottle.Common.Text.{Bytes, codes, trim_prefix, trim_space}
use bottle.Extract.{drop}
use bottle.Sonames.{from_newest}
use bottle.Version.{Ver, cmp_ver, parse_ver}

-- What is known of a version on a kernel: the answers of `fits`.
pub data Fit : Type 0 where
  unknown : Fit
  fits : Fit
  too_new : Fit

-- `fits`, with the annotation of `glibcMinKernelOf`, where `none` is an error.
unfoldable pub fit_of : (min_kernel : Bytes → Option Bytes) → (kernel : Bytes) → Ver → Fit
fit_of min_kernel kernel v = elim (min_kernel v.raw) [
  | none ↦ unknown
  | some mk ↦
      if is_empty mk
      then unknown
      else elim (cmp_ver (parse_ver mk) (parse_ver kernel)) [ Ordering.gt ↦ too_new | _ ↦ fits ]
]

-- The loop of `newestGlibcForKernel` over the versions behind the newest.
unfoldable pub first_fit : (Ver → Fit) → List Ver → Bytes
first_fit fit [] = []
first_fit fit (v ∷ vs) = elim (fit v) [ fits ↦ v.raw | _ ↦ first_fit fit vs ]

unfoldable pub from_newest_fit : (Ver → Fit) → List Ver → Bytes
from_newest_fit fit [] = []
from_newest_fit fit (v ∷ older) = elim (fit v) [ too_new ↦ first_fit fit older | _ ↦ [] ]

-- `newestGlibcForKernel`, with the answer of `FetchVersions`, where `none` is an error.
unfoldable pub newest_glibc_for_kernel :
    (versions : Option (List Ver)) (min_kernel : Bytes → Option Bytes) (kernel : Bytes) → Bytes
newest_glibc_for_kernel none min_kernel kernel = []
newest_glibc_for_kernel (some vs) min_kernel kernel =
    from_newest_fit (fit_of min_kernel kernel) (from_newest vs)

-- `HostKernel`, on the file `osrelease` where it can be read; `none` is an error.
unfoldable pub host_kernel : (on_linux : Bool) (osrelease : Option Bytes) → Option Bytes
host_kernel false osrelease = some []
host_kernel true none = none
host_kernel true (some b) = some (trim_space b)

-- `GlibcFlavor`, on the setting `ZPKG_GLIBC`.
abbrev pub glibc_flavor_of : Bytes → Bytes
glibc_flavor_of setting = trim_prefix (codes "=") (trim_space setting)

abbrev pub exactly : Bytes → Bytes
exactly v = if is_empty v then codes "*" else b'=' ∷ v

-- `resolveGlibcConstraint`, with the answers of `HostKernel` and `newestGlibcForKernel`.
unfoldable pub resolve_glibc_constraint :
    (setting : Bytes) (kernel : Option Bytes) (newest : Bytes → Bytes) → Bytes
resolve_glibc_constraint setting kernel newest =
    if not (is_empty (glibc_flavor_of setting))
    then exactly (glibc_flavor_of setting)
    else elim kernel [
      | none ↦ codes "*"
      | some k ↦ if is_empty k then codes "*" else exactly (newest k)
    ]

-- The errors of `GlibcMinKernel` behind the section; `panicked` is a read beyond a slice.
pub data NoteError : Type 0 where
  panicked : NoteError
  truncated : NoteError
  not_abi_tag : (kind : ℕ) → NoteError
  bad_desc : NoteError
  not_linux : (os : ℕ) → NoteError

module _ (uint32 : Bytes → ℕ) where
  -- `bo.Uint32(data[off:])`
  abbrev pub read_at : Bytes → ℕ → Result NoteError ℕ
  read_at s off =
      if leb (off + 4) (length s) then ok (uint32 (take 4 (drop off s))) else err panicked

  -- `12 + (namesz+3)&^uint32(3)`
  abbrev pub desc_off : ℕ → ℕ
  desc_off namesz = (12 + (namesz + 3) % 4294967296 / 4 * 4) % 4294967296

  -- `GlibcMinKernel`, on the description.
  unfoldable pub kernel_of_desc : Bytes → Result NoteError Bytes
  kernel_of_desc desc = read_at desc 0 >>= λ os.
      if not (os == 0)
      then err (not_linux os)
      else (read_at desc 4 >>= λ a.
          (read_at desc 8 >>= λ b.
          (read_at desc 12 >>= λ c. ok (decimal a ++ (b'.' ∷ (decimal b ++ (b'.' ∷ decimal c)))))))

  -- `GlibcMinKernel`, on the three numbers that the note starts with.
  unfoldable pub kernel_of_head : Bytes → (namesz descsz typ : ℕ) → Result NoteError Bytes
  kernel_of_head s namesz descsz typ =
      if not (typ == 1)
      then err (not_abi_tag typ)
      else if ltb descsz 16 || ltb (length s) (desc_off namesz + descsz)
      then err bad_desc
      else kernel_of_desc (drop (desc_off namesz) s)

  -- `GlibcMinKernel`, on the bytes of the section `.note.ABI-tag`.
  unfoldable pub glibc_min_kernel : Bytes → Result NoteError Bytes
  glibc_min_kernel s =
      if ltb (length s) 12
      then err truncated
      else (read_at s 0 >>= λ namesz.
          (read_at s 4 >>= λ descsz. (read_at s 8 >>= λ typ. kernel_of_head s namesz descsz typ)))
