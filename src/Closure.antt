-- ===== src/Closure.antt =====
-- pkgx.go: the walk over the dependency graph (`collectGraph`), and the closure that it resolves.
pub mod Steps
pub mod Ends
pub mod Demands
pub mod Named
pub mod Reach
use bottle.Common.{
  ℕ, zero, suc, ◌+◌, List, [], ◌∷◌, ◌++◌, ◌||◌, Bool, true, false, Option, none, some, map,
}
use bottle.Common.Dict.{mem_bytes, keys, get_or, set}
use bottle.Common.Lists.{length, is_empty}
use bottle.Common.Result.{Result, ok, err, ◌>>=◌}
use bottle.Common.Sort.{sort_texts}
use bottle.Common.Tests.{if◌then◌else◌}
use bottle.Common.Text.{Bytes, codes, bytes_eq}
use bottle.Pick.{Failure}

-- The map from a project to its constraint that a recipe's dependencies are, its keys distinct.
abbrev pub Deps : Type 0
Deps = List (Bytes × Bytes)

-- The struct `Edge`.
pub record Edge : Type 0 where
  pub of_project : Bytes
  pub on_project : Bytes
  pub constraint : Bytes

abbrev pub Demands : Type 0
Demands = List (Bytes × List Bytes)

abbrev pub demands : Bytes → Demands → List Bytes
demands p m = get_or p m []

-- The variables of `collectGraph`. `order` serves as `seen` too: the two grow together.
pub record Walk : Type 0 where
  pub constraints : Demands
  pub asked_by : Demands
  pub edges : List Edge
  pub order : List Bytes

-- `m[key] = append(m[key], v)`
abbrev pub push : Bytes → Bytes → Demands → Demands
push key v m = set key (demands key m ++ v ∷ []) m

-- A constraint that says nothing.
abbrev pub is_any : Bytes → Bool
is_any c = is_empty c || bytes_eq c (codes "*")

-- The closure `add`.
unfoldable pub add_demand : Bytes → Bytes → Bytes → Walk → Walk
add_demand project constraint who w =
    if is_any constraint || mem_bytes constraint (demands project w.constraints)
    then w
    else record w {
      constraints = push project constraint w.constraints;
      asked_by = push project who w.asked_by;
    }

-- `add`, and the edge behind it.
unfoldable pub add_edge : Edge → Bytes → Walk → Walk
unfolding add_demand
add_edge e who w =
    let w' = add_demand e.on_project e.constraint who w in record w' { edges = w'.edges ++ e ∷ [] }

-- `sortedKeys`, each key with its value.
unfoldable pub sorted_entries : Deps → Deps
unfolding sort_texts get_or
sorted_entries m = map (λ k. (k, get_or k m [])) (sort_texts (keys m))

-- The loop over the roots.
unfoldable pub add_roots : Deps → Walk → Walk
unfolding add_edge
add_roots [] w = w
add_roots ((p, c) ∷ rs) w =
    add_roots rs
      (add_edge (record { of_project = []; on_project = p; constraint = c }) (codes "requested") w)

-- The loop over the dependencies of a project: the queue and the walk behind it.
unfoldable pub visit_deps : Bytes → Deps → List Bytes → Walk → List Bytes × Walk
unfolding add_edge
visit_deps project [] queue w = (queue, w)
visit_deps project ((dp, c) ∷ ds) queue w =
    visit_deps project ds (if mem_bytes dp w.order then queue else queue ++ dp ∷ [])
      (add_edge (record { of_project = project; on_project = dp; constraint = c }) project w)

-- `out_of_fuel` belongs to the model only.
pub data WalkError : Type 0 where
  fetch_failed : Failure → WalkError
  out_of_fuel : WalkError

-- `FetchMetaFor` on one platform: the dependencies that a recipe declares.
abbrev pub Recipes : Type 0
Recipes = Bytes → Result Failure Deps

abbrev pub visited : Bytes → Walk → Walk
visited p w = record w { order = w.order ++ p ∷ [] }

-- The loop over the queue.
unfoldable pub walk : Recipes → ℕ → List Bytes → Walk → Result WalkError Walk
unfolding visit_deps sorted_entries
walk fetch fuel [] w = ok w
walk fetch zero (p ∷ queue) w = err out_of_fuel
walk fetch (suc fuel) (p ∷ queue) w = elim (mem_bytes p w.order) [
  | true ↦ walk fetch fuel queue w
  | false ↦ elim (fetch p) [
    | err e ↦ err (fetch_failed e)
    | ok deps ↦
        let (queue', w') = visit_deps p (sorted_entries deps) queue (visited p w) in
        walk fetch fuel queue' w'
  ]
]

abbrev pub empty_walk : Walk
empty_walk = record { constraints = []; asked_by = []; edges = []; order = [] }

-- `collectGraph`.
unfoldable pub collect_graph : Recipes → ℕ → Deps → Result WalkError Walk
unfolding walk add_roots
collect_graph fetch fuel roots =
    walk fetch fuel (keys (sorted_entries roots)) (add_roots (sorted_entries roots) empty_walk)
