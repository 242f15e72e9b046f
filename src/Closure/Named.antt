-- ===== src/Closure/Named.antt =====
-- What holds of the edges of a walk that `collectGraph` returns holds of every demand that the
-- operator and the recipes of the listed projects make.
use bottle.Common.{ℕ, List, [], ◌∷◌, ◌++◌, ◌≡◌, sym, subst, map, arith}
use bottle.Common.Dict.{keys, get_or}
use bottle.Common.Lists.{All, All-append, All-append_back}
use bottle.Common.Result.{ok}
use bottle.Common.Sort.{sort_texts, All-sort_texts_back}
use bottle.Common.Text.{Bytes, codes}
use bottle.Closure.{
  Deps, Edge, Walk, Recipes, add_edge, add_roots, sorted_entries, visit_deps, visited,
  collect_graph, empty_walk,
}
use bottle.Closure.Ends.{add_roots-order, visit_deps-order}
use bottle.Closure.Steps.{Rule, walk_ind}

pub add_edge-edges :
    (e : Edge) (who : Bytes) (w : Walk) → (add_edge e who w).edges ≡ w.edges ++ e ∷ []
unfolding add_edge
add_edge-edges e who w = ground arith

-- The edge that a project's demand on another is, for the constraint that the map has at its key.
abbrev edge_to : Bytes → Deps → Bytes → Edge
edge_to of_project deps k = record {
  of_project = of_project;
  on_project = k;
  constraint = get_or k deps [];
}

module _ (P : Edge → Type 0) where
  -- What is said of edges holds of each demand in a map.
  abbrev pub AllOf : Bytes → Deps → Type 0
  AllOf of_project deps = All (λ k. P (edge_to of_project deps k)) (keys deps)

  -- A listed project has a recipe, and what is said of edges holds of each demand in it.
  abbrev pub IsRead : Recipes → Bytes → Type 0
  IsRead fetch p = (deps : Deps) × (fetch p ≡ ok deps) × AllOf p deps

  abbrev AllFrom : Bytes → Deps → Type 0
  AllFrom p = All (λ d. P (record { of_project = p; on_project = d.0; constraint = d.1 }))

  add_edge-All :
      (e : Edge) (who : Bytes) (w : Walk) → All P (add_edge e who w).edges → All P w.edges × P e
  add_edge-All e who w h =
      let (old, (new, _)) =
        All-append_back P w.edges (e ∷ []) (subst (All P) (add_edge-edges e who w) h) in
      (old, new)

  visit_deps-All :
      (p : Bytes) (ds : Deps) (queue : List Bytes) (w : Walk)
      → All P (visit_deps p ds queue w).1.edges
      → All P w.edges × AllFrom p ds
  unfolding visit_deps
  visit_deps-All p [] queue w h = (h, tt)
  visit_deps-All p ((dp, c) ∷ ds) queue w h =
      let e : Edge = record { of_project = p; on_project = dp; constraint = c } in
      let (first, later) = visit_deps-All p ds _ (add_edge e p w) h in
      let (old, new) = add_edge-All e p w first in (old, (new, later))

  add_roots-All :
      (rs : Deps) (w : Walk) → All P (add_roots rs w).edges → All P w.edges × AllFrom [] rs
  unfolding add_roots
  add_roots-All [] w h = (h, tt)
  add_roots-All ((p, c) ∷ rs) w h =
      let e : Edge = record { of_project = []; on_project = p; constraint = c } in
      let (first, later) = add_roots-All rs (add_edge e (codes "requested") w) h in
      let (old, new) = add_edge-All e (codes "requested") w first in (old, (new, later))

  AllFrom-map :
      (p : Bytes) (m : Deps) (ks : List Bytes)
      → AllFrom p (map (λ k. (k, get_or k m [])) ks)
      → All (λ k. P (edge_to p m k)) ks
  AllFrom-map p m [] h = tt
  AllFrom-map p m (k ∷ ks) (h, hs) = (h, AllFrom-map p m ks hs)

  AllFrom-sorted_entries : (p : Bytes) (m : Deps) → AllFrom p (sorted_entries m) → AllOf p m
  unfolding sorted_entries
  AllFrom-sorted_entries p m h =
      All-sort_texts_back (λ k. P (edge_to p m k)) (keys m)
        (AllFrom-map p m (sort_texts (keys m)) h)

  module _ (fetch : Recipes) (roots : Deps) where
    abbrev Told : List Bytes → Walk → Type 0
    Told queue w = All P w.edges → AllOf [] roots × All (IsRead fetch) w.order

    Told-rule : Rule fetch Told
    Told-rule = record {
      old = λ p queue w seen h. h;
      new = λ p queue w deps unseen fetched h every.
          let (old, new) = visit_deps-All p (sorted_entries deps) queue (visited p w) every in
          let (asked, listed) = h old in
          (
            asked,
            subst (All (IsRead fetch))
                (sym (visit_deps-order p (sorted_entries deps) queue (visited p w)))
                (All-append (IsRead fetch) w.order (p ∷ []) listed
                  ((deps, fetched, AllFrom-sorted_entries p deps new), tt)),
          );
    }

    pub collect_graph-Told :
        (fuel : ℕ) (w : Walk)
        → collect_graph fetch fuel roots ≡ ok w
        → All P w.edges
        → AllOf [] roots × All (IsRead fetch) w.order
    unfolding collect_graph
    collect_graph-Told fuel w e =
        let entries = sorted_entries roots in
        walk_ind Told-rule fuel (keys entries) (add_roots entries empty_walk) w
          (λ every. (
            AllFrom-sorted_entries [] roots ((add_roots-All entries empty_walk every).1),
            subst (All (IsRead fetch)) (sym (add_roots-order entries empty_walk)) tt,
          ))
          e
