-- ===== src/Closure/Demands.antt =====
-- What `collectGraph` has gathered at its end: every demand, with who made it, and every project.
use bottle.Common.{ℕ, ◌+◌, List, [], ◌∷◌, ◌++◌, ◌≡◌, inl, inr, refl, Bool, true, false, ◌||◌, arith}
use bottle.Common.Dict.{mem-append, mem_bytes, keys, get_or, get_or-set}
use bottle.Common.Lists.{length, length-append, All, All-append, All-map}
use bottle.Common.Result.{ok}
use bottle.Common.Tests.{Bool-cases, if◌then◌else◌}
use bottle.Common.Text.{Bytes, codes, bytes_eq, bytes_eq→eq, eq→bytes_eq}
use bottle.Closure.{
  Deps, Demands, demands, push, is_any, Edge, Walk, Recipes, add_edge, add_roots, sorted_entries,
  visit_deps, visited, collect_graph, empty_walk,
}
use bottle.Closure.Steps.{Rule, walk_ind}

-- The demand of an edge is kept, unless it says nothing.
abbrev pub IsKept : Demands → Edge → Type 0
IsKept m e = (is_any e.constraint || mem_bytes e.constraint (demands e.on_project m)) ≡ true

-- Each kept demand has who made it, says something, and no demand of an edge is lost.
pub record IsConsistent (w : Walk) : Type 0 where
  pub parallel : (p : Bytes) → length (demands p w.constraints) ≡ length (demands p w.asked_by)
  pub meaningful : (p : Bytes) → All (λ c. is_any c ≡ false) (demands p w.constraints)
  pub kept : All (IsKept w.constraints) w.edges

demands-push :
    (key p v : Bytes) (m : Demands)
    → demands p (push key v m) ≡ (if bytes_eq p key then demands key m ++ v ∷ [] else demands p m)
demands-push key p v m = get_or-set key p (demands key m ++ v ∷ []) [] m

length-demands-push :
    (key p v : Bytes) (m : Demands)
    → length (demands p (push key v m)) ≡ length (demands p m) + (if bytes_eq p key then 1 else 0)
length-demands-push key p v m =
    ground
      (arith, demands-push key p v m, length-append {0} (demands key m) (v ∷ []), bytes_eq→eq p key)

mem-demands-push :
    (c key p v : Bytes) (m : Demands)
    → mem_bytes c (demands p m) ≡ true
    → mem_bytes c (demands p (push key v m)) ≡ true
mem-demands-push c key p v m h =
    ground (arith, demands-push key p v m, mem-append c (demands key m) (v ∷ []), bytes_eq→eq p key)

IsKept-push : (key v : Bytes) (m : Demands) (e : Edge) → IsKept m e → IsKept (push key v m) e
IsKept-push key v m e h = ground (arith, mem-demands-push e.constraint key e.on_project v m)

abbrev is_known : Edge → Walk → Bool
is_known e w = is_any e.constraint || mem_bytes e.constraint (demands e.on_project w.constraints)

-- The two outcomes of `add`.
kept-push : (p c : Bytes) (m : Demands) → (is_any c || mem_bytes c (demands p (push p c m))) ≡ true
kept-push p c m = ground (
  arith,
  demands-push p p c m,
  eq→bytes_eq p p refl,
  eq→bytes_eq c c refl,
  mem-append c (demands p m) (c ∷ []),
)

All-if :
    (P : Bytes → Type 0) (b : Bool) (xs ys : List Bytes)
    → All P xs
    → All P ys
    → All P (if b then xs else ys)
All-if P true xs ys h k = h
All-if P false xs ys h k = k

module _ (e : Edge) (who : Bytes) (w : Walk) where
  abbrev old_demand : Walk
  old_demand = record w { edges = w.edges ++ e ∷ [] }

  abbrev new_demand : Walk
  new_demand = record w {
    constraints = push e.on_project e.constraint w.constraints;
    asked_by = push e.on_project who w.asked_by;
    edges = w.edges ++ e ∷ [];
  }

  add_edge_old : is_known e w ≡ true → add_edge e who w ≡ old_demand
  unfolding add_edge
  add_edge_old h = ground arith

  add_edge_new : is_known e w ≡ false → add_edge e who w ≡ new_demand
  unfolding add_edge
  add_edge_new h = ground arith

  old_demand-IsConsistent : is_known e w ≡ true → IsConsistent w → IsConsistent old_demand
  old_demand-IsConsistent known h = record {
    parallel = h.parallel;
    meaningful = h.meaningful;
    kept = All-append (IsKept w.constraints) w.edges (e ∷ []) h.kept (known, tt);
  }

  meaningful-push :
      is_any e.constraint ≡ false
      → ((p : Bytes) → All (λ c. is_any c ≡ false) (demands p w.constraints))
      → (p : Bytes)
      → All (λ c. is_any c ≡ false) (demands p (push e.on_project e.constraint w.constraints))
  meaningful-push says h p = rw (demands-push e.on_project p e.constraint w.constraints) (
      All-if (λ c. is_any c ≡ false) (bytes_eq p e.on_project) _ _
        (All-append (λ c. is_any c ≡ false) (demands e.on_project w.constraints) (e.constraint ∷ [])
          (h e.on_project) (says, tt))
        (h p))

  new_demand-IsConsistent : is_known e w ≡ false → IsConsistent w → IsConsistent new_demand
  new_demand-IsConsistent new h = record {
    parallel = λ p. omega (
      arith,
      length-demands-push e.on_project p e.constraint w.constraints,
      length-demands-push e.on_project p who w.asked_by,
      h.parallel p,
    );
    meaningful = meaningful-push (ground arith) h.meaningful;
    kept =
        All-append (IsKept new_demand.constraints) w.edges (e ∷ [])
          (All-map (IsKept-push e.on_project e.constraint w.constraints) w.edges h.kept)
          (kept-push e.on_project e.constraint w.constraints, tt);
  }

  pub add_edge-IsConsistent : IsConsistent w → IsConsistent (add_edge e who w)
  add_edge-IsConsistent h = elim (Bool-cases (is_known e w)) [
    | inl known ↦ rw (add_edge_old known) (old_demand-IsConsistent known h)
    | inr new ↦ rw (add_edge_new new) (new_demand-IsConsistent new h)
  ]

pub add_roots-IsConsistent : (rs : Deps) (w : Walk) → IsConsistent w → IsConsistent (add_roots rs w)
unfolding add_roots
add_roots-IsConsistent [] w h = h
add_roots-IsConsistent ((p, c) ∷ rs) w h =
    let e : Edge = record { of_project = []; on_project = p; constraint = c } in
    add_roots-IsConsistent rs (add_edge e (codes "requested") w)
      (add_edge-IsConsistent e (codes "requested") w h)

visit_deps-IsConsistent :
    (p : Bytes) (ds : Deps) (queue : List Bytes) (w : Walk)
    → IsConsistent w
    → IsConsistent (visit_deps p ds queue w).1
unfolding visit_deps
visit_deps-IsConsistent p [] queue w h = h
visit_deps-IsConsistent p ((dp, c) ∷ ds) queue w h =
    let e : Edge = record { of_project = p; on_project = dp; constraint = c } in
    visit_deps-IsConsistent p ds _ (add_edge e p w) (add_edge-IsConsistent e p w h)

visited-IsConsistent : (p : Bytes) (w : Walk) → IsConsistent w → IsConsistent (visited p w)
visited-IsConsistent p w h = record {
  parallel = h.parallel;
  meaningful = h.meaningful;
  kept = h.kept;
}

IsConsistent-rule : (fetch : Recipes) → Rule fetch (λ queue w. IsConsistent w)
IsConsistent-rule fetch = record {
  old = λ p queue w seen h. h;
  new = λ p queue w deps unseen fetched h.
      visit_deps-IsConsistent p (sorted_entries deps) queue (visited p w)
        (visited-IsConsistent p w h);
}

empty_walk-IsConsistent : IsConsistent empty_walk
unfolding get_or
empty_walk-IsConsistent = record { parallel = λ p. refl; meaningful = λ p. tt; kept = tt }

-- A walk that `collectGraph` returns is consistent: every project has as many names of who asked as
-- it has demands, no demand says nothing, and the constraint of every edge that says something is
-- among the demands on the project that the edge points at.
pub collect_graph-IsConsistent :
    (fetch : Recipes) (fuel : ℕ) (roots : Deps) (w : Walk)
    → collect_graph fetch fuel roots ≡ ok w
    → IsConsistent w
unfolding collect_graph
collect_graph-IsConsistent fetch fuel roots w e =
    walk_ind (IsConsistent-rule fetch) fuel (keys (sorted_entries roots))
      (add_roots (sorted_entries roots) empty_walk) w
      (add_roots-IsConsistent (sorted_entries roots) empty_walk empty_walk-IsConsistent) e
