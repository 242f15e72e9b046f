-- ===== src/Lib.antt =====
-- bottle: the resolver of a package manager for binary bottles, in Go.
--
-- Given the projects that an operator asks for, with a constraint on each, `ResolveClosureFor`
-- (pkgx.go) walks the recipes, gathers every demand on every project with who made it, and
-- picks a version of each project from the tags that its registry lists. Where no one version meets
-- all demands, it looks for ABI lines: several versions that ship disjoint sonames.
--
-- Round the resolver stand what feeds it and what acts on its answer: a listing of versions comes from
-- the registry or, where that does not carry a project, from upstream (Sources, over the requests of
-- Fetch); recipes say what a project depends on (Recipe), and Glibc which C library a kernel runs; a
-- build of a version is named, looked up, withdrawn and sorted (Builds, BuildOrder, Distinguish), is told
-- by its spec (Concrete, Wire), is found in the index of its version (Index), is accepted by its
-- signatures (Trust), is unpacked (Extract), has a directory in the store (StorePath, Store, Host), and is
-- installed by all of these (Install). Complete installs a closure and adds what the libraries in it need
-- (Sonames, Macho). A catalogue answers without a network (Catalog, Search), and a lock holds what was
-- resolved (Lock).
--
-- The parts of the program, each with the file that models it:
--
--   Version        pkgx.go          `Ver`, `ParseVer`, `splitRebuild`, `cmpVer`, `sameN`
--   VersionString  versionstring.go `ValidateVersionString`, `ValidateSpecHash`,
--                                   `ValidatePlatformSlug`
--   Constraint     pkgx.go          `splitComparators`, `Ver.satisfies`, `satisfiesAll`
--   Tag            pkgx.go, glibc.go and concrete.go
--                                   `isVersionTag`, `SplitFlavor`, `SplitVariantHash`, `numericKey`,
--                                   `supersedes`, `selectVersions`, `tagSpellings`
--   Pick           pkgx.go and deprecated.go
--                                   `pickVersionForAll`, `variantSiblings`, `publishedTagFor`,
--                                   `deprecatedLine`
--   Closure        pkgx.go          `collectGraph`: the walk over the recipes
--   Lines          abilines.go      `pickABILines`, `partitionConstraints`, `sonamesDisjoint`
--   Resolve        pkgx.go          `ResolveClosureFor`, `closureErr`
--   Trust          trust.go, verify.go
--                                   `TrustSet.count`, `verifyOne`, `revokedBy`, `dedupeSigners`,
--                                   `withoutRevoked`, `SignatureReport.Err`
--   Concrete       concrete.go      `Concrete.Canonical`, `field`, `IsZero`;
--                                   Concrete/Request: `VariantConstraints.Satisfies`
--   ProjectName    projectname.go   `ValidateProjectName`
--   BuildOrder     buildorder.go    `closureIsLater`, `ParseBuildOrder`, `closureRank`,
--                                   `SortBuilds`
--   Builds         builds.go        `BuildsOf`, `ParseBuildRef`, `MatchBuild`; Builds/Withdrawn:
--                                   withdrawn.go
--   StorePath      storepath.go     `StoreDirName`, `ParseStoreDirName`, `StoreHash`, `ResolveBuild`
--   Extract        extract.go       `Extract`, `extSafeTarget`, `extLinkSource`, `extSafeParents`
--   Catalog        catalog.go       `Lookup`, `ProvidersOf`, `WhyDepends`
--   Search         search.go        `Search`, `scoreProject`
--   Lock           lock.go          `ParseLock`, `LockPinned`
--   Fetch          pkgx.go          `httpGet`, `httpGetOnce`, `retriable`
--   Sources        pkgx.go          `versionsForSourced`, `repoAbsent`, `bothPlacesLooked`,
--                                   `httpVersionsFor`
--   Distinguish    distinguish.go   `Distinguish`, `differingDeps`, `differingVariants`
--   Host           install.go       `InstalledBuilds`; storeplatform.go: `MarkStorePlatform`
--   Install        pkgx.go          `fetchBottle`, `verifyPulledDigest`; Install/Placed: `InstallFor`,
--                                   `renameOrExplain`, `writeABILinks`
--   Sonames        closure.go       the tables of sonames, `implicitRoots`, `candidateOrder`
--   Macho          closure_macho.go `MachoNeeded`, `machoMagic`, `unresolvedRefs`
--   Complete       closure.go       `CompleteClosureFor`, with `completeELF` (Complete/Elf) and
--                                   `completeMachO` (Complete/Dylibs)
--   Glibc          glibc.go         `newestGlibcForKernel`, `resolveGlibcConstraint`; kernel.go:
--                                   `GlibcMinKernel`
--   Index          oci.go           `resolvePlatform`, `upsertPlatform`, `Platforms`; Index/Merge:
--                                   `mergePlatformIntoIndex`
--   Recipe         pkgx.go          `mergeRecipe`, `reduceDeps`, `FetchMetaFor`, `CompanionsFor`
--   Store          store.go         `ScanStore`, `StoreTotals`, `LiveFromLocks`; storeplatform.go:
--                                   `StorePlatform`, `CheckStorePlatform`
--   Wire           concretewire.go  `MarshalSpec`, `UnmarshalSpec`, `VerifySpec`, `SpecOf`
--
-- Common holds what they share: Go strings as lists of bytes, with the functions of `strings` that the
-- program calls, of ASCII where letters and white space are concerned; paths; machine integers;
-- `strconv.Itoa`; sorting; maps as association lists; results.
--
-- A function of the model has the name of the Go function, in lower case with underscores. A Go string
-- is a list of its bytes. An `int` is an integer; where `ParseVer` and `splitRebuild` read digits, the
-- sum wraps around at 64 bits as it does there. A Go map that the program only reads by key is an
-- association list with one entry for each key; the loops over a map that the program sorts first run
-- over the sorted keys. `sort.Slice` leaves open in which order versions that compare equal come out;
-- the model's insertion sort picks one.
--
-- `Ver.satisfies` calls itself on parts of its text. In the model it runs on fuel, one more than the
-- length of the text, and Constraint/Recursion shows that this is enough for every text. The loop of
-- `collectGraph` over its queue runs on fuel too; Closure/Ends shows how much is enough.
-- `WhyDepends` is given one more than the number of all dependencies of the catalogue, and the path that
-- it reads off its predecessors one more than there are of them; Catalog/Links shows that both are
-- enough.
--
-- The calls of the operating system that Extract and Install make are the fields of records over a state
-- of the file system; the requests of Fetch meet what a function of their number says; the calls of a
-- repository in Index go over a state that other writers change; the registry and the store that Builds
-- asks, and the digest and the disk of StorePath, are parameters too. What Install fetches and what it
-- reads of a body are the fields of `Remote`, and what Complete calls those of `Means`: the installs, the
-- closure of some roots, and the walks over installed files. A completion takes eight rounds at most and
-- tries forty versions for a soname, and a merge makes six attempts, as the program does. Lock and Recipe
-- begin behind the readers of HCL and YAML, and Wire behind the coding of JSON.
--
-- Not modelled: the client of the registry with the push and pull of blobs (oci.go, client_*.go,
-- blobfile*.go, fetchblob.go), the environments of recipes (pkgx.go), the stubs and root file systems of
-- images (install.go), services (service.go), the cryptography of signatures, the readers of YAML, HCL,
-- JSON, ELF and Mach-O, and the printing of messages: an error is a value that holds what the message
-- would say. Versions, end-of-life lines and annotations that the network answers are fields of the
-- records `Project` and `World`.
pub mod Common
pub mod Version
pub mod VersionString
pub mod Constraint
pub mod Tag
pub mod Pick
pub mod Closure
pub mod Lines
pub mod Resolve
pub mod Trust
pub mod Concrete
pub mod BuildOrder
pub mod ProjectName
pub mod Builds
pub mod StorePath
pub mod Extract
pub mod Catalog
pub mod Search
pub mod Lock
pub mod Fetch
pub mod Sources
pub mod Distinguish
pub mod Host
pub mod Install
pub mod Sonames
pub mod Macho
pub mod Complete
pub mod Glibc
pub mod Index
pub mod Recipe
pub mod Store
pub mod Wire
pub mod Tests
