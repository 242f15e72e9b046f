-- ===== src/Catalog.antt =====
-- catalog.go: what a catalogue answers without a network.

pub mod Providers
pub mod Trace
pub mod Scanned
pub mod Links
use Prim.Native.Nat.{zero, suc}
use bottle.Common.{
  ℕ, ◌+◌, List, [], ◌∷◌, ◌++◌, ◌&&◌, ◌||◌, not, Bool, true, false, Option, none, some,
}
use bottle.Common.Dict.{mem_bytes, keys, get_or, set}
use bottle.Common.Lists.{any, is_empty, length}
use bottle.Common.Sort.{sort_texts}
use bottle.Common.Tests.{◌==◌, if◌then◌else◌}
use bottle.Common.Text.{Bytes, bytes_eq}

-- The struct `CatalogProject`.
pub record CatalogProject : Type 0 where
  pub project : Bytes
  pub versions : List Bytes
  pub platforms : List Bytes
  pub summary : Bytes
  pub deps : List Bytes
  pub provides : List Bytes

-- The zero `CatalogProject`.
abbrev pub no_project : CatalogProject
no_project = record {
  project = [];
  versions = [];
  platforms = [];
  summary = [];
  deps = [];
  provides = [];
}

-- `Catalog.Lookup`, on `c.Projects`.
unfoldable pub lookup : List CatalogProject → Bytes → Option CatalogProject
unfolding bytes_eq
lookup [] project = none
lookup (p ∷ ps) project = if bytes_eq p.project project then some p else lookup ps project

-- The loop of `ProvidersOf`.
unfoldable pub providers : List CatalogProject → Bytes → List Bytes
unfolding bytes_eq
providers [] command = []
providers (p ∷ ps) command =
    let rest = providers ps command in
    if any (λ cmd. bytes_eq cmd command) p.provides then p.project ∷ rest else rest

-- `Catalog.ProvidersOf`.
unfoldable pub providers_of : List CatalogProject → Bytes → List Bytes
unfolding providers sort_texts
providers_of ps command = if is_empty command then [] else sort_texts (providers ps command)

-- `Catalog.index`: of two entries of one name the later stays.
unfoldable pub index_from :
    List (Bytes × CatalogProject) → List CatalogProject → List (Bytes × CatalogProject)
index_from index [] = index
index_from index (p ∷ ps) = index_from (set p.project p index) ps

unfoldable pub index : List CatalogProject → List (Bytes × CatalogProject)
unfolding index_from set
index ps = index_from [] ps

-- `index[p].Deps`
abbrev pub deps_at : List (Bytes × CatalogProject) → Bytes → List Bytes
deps_at ix p = (get_or p ix no_project).deps

-- What the inner loop of `WhyDepends` leaves: it has reached the end, or it goes on with the rest of
-- the queue. `prev` is only ever given a key that it does not hold.
pub data Scan : Type 0 where
  reached : (prev : List (Bytes × Bytes)) → Scan
  goes_on : (prev : List (Bytes × Bytes)) (queue : List Bytes) → Scan

unfoldable pub scan_kids :
    (to p : Bytes)
    → (kids : List Bytes) → (prev : List (Bytes × Bytes)) → (queue : List Bytes) → Scan
scan_kids to p [] prev queue = goes_on prev queue
scan_kids to p (d ∷ ds) prev queue = elim (mem_bytes d (keys prev)) [
  | true ↦ scan_kids to p ds prev queue
  | false ↦ elim (bytes_eq d to) [
    | true ↦ reached ((d, p) ∷ prev)
    | false ↦ scan_kids to p ds ((d, p) ∷ prev) (queue ++ d ∷ [])
  ]
]

-- The loop that reads the path off `prev` from its end, with the reversal.
unfoldable pub path_back : List (Bytes × Bytes) → ℕ → Bytes → List Bytes → Option (List Bytes)
path_back prev fuel [] path = some path
path_back prev zero (c ∷ n) path = none
path_back prev (suc fuel) (c ∷ n) path =
    path_back prev fuel (get_or (c ∷ n) prev []) ((c ∷ n) ∷ path)

-- What `WhyDepends` answers: a path, or nil. The model may also run out of fuel.
pub data Why : Type 0 where
  because : List Bytes → Why
  no_link : Why
  out_of_fuel : Why

abbrev pub why_of : Option (List Bytes) → Why
why_of none = out_of_fuel
why_of (some path) = because path

-- The loop over the queue.
unfoldable pub search_back :
    (Bytes → List Bytes)
    → (to : Bytes) → ℕ
    → (queue : List Bytes) → (prev : List (Bytes × Bytes)) → Why
search_back deps to fuel [] prev = no_link
search_back deps to zero (p ∷ queue) prev = out_of_fuel
search_back deps to (suc fuel) (p ∷ queue) prev =
    elim (scan_kids to p (sort_texts (deps p)) prev queue) [
      | reached prev' ↦ why_of (path_back prev' (length prev' + 1) to [])
      | goes_on prev' queue' ↦ search_back deps to fuel queue' prev'
    ]

-- The dependencies of all entries.
unfoldable pub all_deps : List CatalogProject → List Bytes
all_deps [] = []
all_deps (p ∷ ps) = p.deps ++ all_deps ps

-- `Catalog.WhyDepends`; the fuel is one more than the number of all dependencies.
unfoldable pub why_depends : List CatalogProject → (from to : Bytes) → Why
why_depends ps from to =
    if bytes_eq from to
    then because (from ∷ [])
    else search_back (deps_at (index ps)) to (length (all_deps ps) + 1) (from ∷ [])
        ((from, []) ∷ [])
