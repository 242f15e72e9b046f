-- ===== src/Sonames.antt =====
-- closure.go: shared libraries by soname, and the projects that provide them.
pub mod Known
pub mod Candidates
use Prim.Native.Nat.{Ordering}
use bottle.Common.{
  ℕ, List, [], ◌∷◌, ◌++◌, ◌&&◌, ◌||◌, not, Bool, true, false, Option, none, some, map,
}
use bottle.Common.Decimal.{itoa}
use bottle.Common.Dict.{mem_bytes, get_or}
use bottle.Common.Lists.{any, is_empty}
use bottle.Common.Sort.{sort_texts}
use bottle.Common.Tests.{if◌then◌else◌}
use bottle.Common.Text.{Bytes, codes, bytes_eq, cut_prefix, has_prefix, is_digit}
use bottle.Version.{Ver}

abbrev pub glibc_sonames : List Bytes
glibc_sonames =
    codes "libc.so"
    ∷ codes "libm.so"
    ∷ codes "libpthread.so"
    ∷ codes "libdl.so"
    ∷ codes "librt.so"
    ∷ codes "libresolv.so"
    ∷ codes "libutil.so"
    ∷ codes "libnsl.so"
    ∷ codes "libanl.so"
    ∷ codes "ld-linux"
    ∷ []

abbrev pub libstdcxx_sonames : List Bytes
libstdcxx_sonames = codes "libgcc_s.so" ∷ codes "libstdc++.so" ∷ []

abbrev pub gcc_sonames : List Bytes
gcc_sonames =
    codes "libatomic.so" ∷ codes "libgomp.so" ∷ codes "libquadmath.so" ∷ codes "libitm.so" ∷ []

abbrev pub libcxx_sonames : List Bytes
libcxx_sonames = codes "libc++.so" ∷ codes "libc++abi.so" ∷ codes "libunwind.so" ∷ []

abbrev pub host_provided_sonames : List Bytes
host_provided_sonames = codes "libcuda.so" ∷ codes "libnvidia-ml.so" ∷ []

abbrev pub soname_project : List (Bytes × Bytes)
soname_project =
    (codes "libz", codes "zlib.net")
    ∷ (codes "libbz2", codes "sourceware.org/bzip2")
    ∷ (codes "liblzma", codes "tukaani.org/xz")
    ∷ (codes "libzstd", codes "facebook.com/zstd")
    ∷ (codes "liblz4", codes "lz4.org")
    ∷ (codes "libssl", codes "openssl.org")
    ∷ (codes "libcrypto", codes "openssl.org")
    ∷ (codes "libcurl", codes "curl.se")
    ∷ (codes "libncurses", codes "invisible-island.net/ncurses")
    ∷ (codes "libncursesw", codes "invisible-island.net/ncurses")
    ∷ (codes "libtinfo", codes "invisible-island.net/ncurses")
    ∷ (codes "libreadline", codes "gnu.org/readline")
    ∷ (codes "libffi", codes "sourceware.org/libffi")
    ∷ (codes "libpcre2-8", codes "pcre.org/v2")
    ∷ (codes "libintl", codes "gnu.org/gettext")
    ∷ (codes "libiconv", codes "gnu.org/libiconv")
    ∷ (codes "libidn2", codes "gnu.org/libidn2")
    ∷ (codes "libunistring", codes "gnu.org/libunistring")
    ∷ (codes "libpsl", codes "rockdaboot.github.io/libpsl")
    ∷ (codes "libnghttp2", codes "nghttp2.org")
    ∷ (codes "libexpat", codes "libexpat.github.io")
    ∷ (codes "libxml2", codes "gnome.org/libxml2")
    ∷ (codes "libsqlite3", codes "sqlite.org")
    ∷ (codes "libgmp", codes "gnu.org/gmp")
    ∷ (codes "libmpfr", codes "gnu.org/mpfr")
    ∷ (codes "libcrypt", codes "github.com/besser82/libxcrypt")
    ∷ (codes "libtinfow", codes "invisible-island.net/ncurses")
    ∷ (codes "libFLAC", codes "xiph.org/flac")
    ∷ (codes "libtheora", codes "theora.org")
    ∷ (codes "libgit2", codes "libgit2.org")
    ∷ (codes "libcbor", codes "github.com/PJK/libcbor")
    ∷ (codes "libavro", codes "apache.org/avro")
    ∷ (codes "libprotoc", codes "protobuf.dev")
    ∷ (codes "libclang", codes "llvm.org")
    ∷ (codes "libgflags", codes "gflags.github.io")
    ∷ (codes "libcap", codes "kernel.org/libcap")
    ∷ (codes "libudev", codes "github.com/eudev-project/eudev")
    ∷ (codes "libtextstyle", codes "gnu.org/gettext")
    ∷ (codes "libpanel", codes "invisible-island.net/ncurses")
    ∷ (codes "libpanelw", codes "invisible-island.net/ncurses")
    ∷ []

abbrev pub soname_prefix_project : List (Bytes × Bytes)
soname_prefix_project =
    (codes "libabsl", codes "abseil.io")
    ∷ (codes "libprotobuf", codes "protobuf.dev")
    ∷ (codes "libre2", codes "github.com/google/re2")
    ∷ (codes "libboost", codes "boost.org")
    ∷ []

-- What stands before and behind the first occurrence of `sep`, by `strings.Index`.
unfoldable pub first_cut : (sep s : Bytes) → Option (Bytes × Bytes)
first_cut sep [] = elim (cut_prefix sep []) [ some tail ↦ some ([], tail) | none ↦ none ]
first_cut sep (c ∷ s) =
    let later = first_cut sep s in
    elim (cut_prefix sep (c ∷ s)) [
      | some tail ↦ some ([], tail)
      | none ↦ elim later [ some (head, tail) ↦ some (c ∷ head, tail) | none ↦ none ]
    ]

-- `sonameBase`.
unfoldable pub soname_base : Bytes → Bytes
soname_base soname = elim (first_cut (codes ".so") soname) [
  | some (head, tail) ↦ head
  | none ↦ soname
]

abbrev pub leading_digits : Bytes → Bytes
leading_digits [] = []
leading_digits (c ∷ s) = let rest = leading_digits s in if is_digit c then c ∷ rest else []

-- `sonameABI`.
unfoldable pub soname_abi : Bytes → Bytes
soname_abi soname = elim (first_cut (codes ".so.") soname) [
  | none ↦ []
  | some (head, tail) ↦ leading_digits tail
]

-- The loop of `projectForSoname` over the prefixes, in an order of the map.
unfoldable pub by_prefix : Bytes → List (Bytes × Bytes) → Bytes
by_prefix soname [] = []
by_prefix soname ((prefix, project) ∷ m) =
    let later = by_prefix soname m in if has_prefix prefix soname then project else later

-- `projectForSoname`, for any two maps.
unfoldable pub project_in : (exact prefixes : List (Bytes × Bytes)) → Bytes → Bytes
project_in exact prefixes soname =
    let project = get_or (soname_base soname) exact [] in
    if is_empty project then by_prefix soname prefixes else project

-- `projectForSoname`.
unfoldable pub project_for_soname : Bytes → Bytes
project_for_soname soname = project_in soname_project soname_prefix_project soname

-- A map as a set.
abbrev pub add_project : List Bytes → Bytes → List Bytes
add_project seen p = if mem_bytes p seen then seen else seen ++ p ∷ []

abbrev pub projects_of : List Bytes → List (Bytes × Bytes) → List Bytes
projects_of seen [] = seen
projects_of seen ((k, p) ∷ m) = projects_of (add_project seen p) m

-- `SonameProviders`, for any two maps.
unfoldable pub providers_in : (exact prefixes : List (Bytes × Bytes)) → List Bytes
providers_in exact prefixes = sort_texts (projects_of (projects_of [] exact) prefixes)

-- `SonameProviders`.
unfoldable pub soname_providers : List Bytes
soname_providers = providers_in soname_project soname_prefix_project

-- `matchesAny`.
abbrev pub matches_any : List Bytes → List Bytes → Bool
matches_any needed prefixes = any (λ soname. any (λ p. has_prefix p soname) prefixes) needed

abbrev pub root_when : Bool → Bytes → List (Bytes × Bytes)
root_when true project = (project, codes "*") ∷ []
root_when false project = []

-- `implicitRoots`, with `ImplicitRootsOff` and the answer of `GlibcConstraint`.
unfoldable pub implicit_roots :
    (off : Bool) (glibc : Bytes) → (needed : List Bytes) → List (Bytes × Bytes)
implicit_roots true glibc needed = []
implicit_roots false glibc needed =
    (codes "gnu.org/glibc", glibc)
    ∷ (root_when (matches_any needed libstdcxx_sonames) (codes "gnu.org/gcc/libstdcxx")
        ++ (root_when (matches_any needed gcc_sonames) (codes "gnu.org/gcc")
            ++ root_when (matches_any needed libcxx_sonames) (codes "libcxx.llvm.org")))

-- `isHostProvidedSoname`.
abbrev pub is_host_provided_soname : Bytes → Bool
is_host_provided_soname soname = matches_any (soname ∷ []) host_provided_sonames

-- `isImplicitSoname`.
abbrev pub is_implicit_soname : Bytes → Bool
is_implicit_soname soname =
    matches_any (soname ∷ []) glibc_sonames
    || matches_any (soname ∷ []) libstdcxx_sonames
    || matches_any (soname ∷ []) gcc_sonames
    || matches_any (soname ∷ []) libcxx_sonames

-- The test of `candidateOrder`.
unfoldable pub is_hinted : (hint : Bytes) → Ver → Bool
is_hinted hint v = elim v.nums [
  | [] ↦ false
  | n ∷ ns ↦ not (is_empty hint) && bytes_eq (itoa n) hint
]

-- The loop of `candidateOrder`: the slices `match` and `rest`, of the versions newest first.
unfoldable pub split_hinted : (hint : Bytes) → List Ver → List Ver × List Ver
split_hinted hint [] = ([], [])
split_hinted hint (v ∷ vs) =
    let (match, rest) = split_hinted hint vs in
    if is_hinted hint v then (v ∷ match, rest) else (match, v ∷ rest)

-- The loop `for i := len(vs) - 1; i >= 0; i--`.
abbrev pub from_newest : List Ver → List Ver
from_newest [] = []
from_newest (v ∷ vs) = from_newest vs ++ v ∷ []

-- `candidateOrder`.
unfoldable pub candidate_order : List Ver → (soname : Bytes) → List Ver
candidate_order vs soname =
    let (match, rest) = split_hinted (soname_abi soname) (from_newest vs) in match ++ rest
