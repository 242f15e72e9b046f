-- ===== src/Closure/Ends.antt =====
-- The loop of `collectGraph` ends: with enough fuel it never stops for want of it.
use bottle.Common.{
  ℕ, zero, suc, ◌+◌, ◌≤◌, List, [], ◌∷◌, ◌++◌, ◌≡◌, ◌≢◌, ◌∙◌, inl, inr, refl, sym, ap, true, false,
  map, arith,
}
use bottle.Common.Dict.{mem-append, mem_bytes, keys, get_or}
use bottle.Common.Lists.{length, length-append, All, All-append}
use bottle.Common.Result.{Result-cases, ok, err}
use bottle.Common.Sort.{sort_texts, length-sort_texts, All-sort_texts}
use bottle.Common.Tests.{Bool-cases, if◌then◌else◌}
use bottle.Common.Text.{Bytes, codes, bytes_eq, bytes_eq→eq, eq→bytes_eq}
use bottle.Closure.Steps.{walk_old, walk_new, walk_failed, after}
use bottle.Closure.{
  Deps, Edge, Walk, Recipes, out_of_fuel, add_edge, add_roots, sorted_entries, visit_deps, visited,
  walk, collect_graph, empty_walk,
}

-- How many dependencies a recipe has.
abbrev pub weight : Recipes → Bytes → ℕ
weight fetch p = elim (fetch p) [ ok deps ↦ length deps | err e ↦ 0 ]

-- The dependencies of the projects in `all` that are not in `order` yet.
abbrev pub pending : Recipes → List Bytes → List Bytes → ℕ
pending fetch order [] = 0
pending fetch order (u ∷ us) =
    (if mem_bytes u order then 0 else weight fetch u) + pending fetch order us

length-map {ℓ κ} :
    {A : Type ℓ} {B : Type κ} (f : A → B) (xs : List A) → length (map f xs) ≡ length xs
length-map f [] = refl
length-map f (x ∷ xs) = ap suc (length-map f xs)

length-keys : (deps : Deps) → length (keys deps) ≡ length deps
length-keys [] = refl
length-keys ((k, v) ∷ m) = ap suc (length-keys m)

keys-entries : (f : Bytes → Bytes) (ks : List Bytes) → keys (map (λ k. (k, f k)) ks) ≡ ks
keys-entries f [] = refl
keys-entries f (k ∷ ks) = rw (keys-entries f ks)

weight-fetched :
    (fetch : Recipes) (p : Bytes) (deps : Deps) → fetch p ≡ ok deps → weight fetch p ≡ length deps
weight-fetched fetch p deps fetched = ground arith

pending-snoc-le :
    (fetch : Recipes) (order us : List Bytes) (p : Bytes)
    → pending fetch (order ++ p ∷ []) us ≤ pending fetch order us
pending-snoc-le fetch order [] p = omega arith
pending-snoc-le fetch order (u ∷ us) p =
    ground (arith, pending-snoc-le fetch order us p, mem-append u order (p ∷ []))

-- Placing a project of `us` pays for its dependencies.
pending-snoc :
    (fetch : Recipes) (order us : List Bytes) (p : Bytes)
    → mem_bytes p us ≡ true
    → mem_bytes p order ≡ false
    → pending fetch (order ++ p ∷ []) us + weight fetch p ≤ pending fetch order us
pending-snoc fetch order [] p h k = cc
pending-snoc fetch order (u ∷ us) p h k = elim (Bool-cases (bytes_eq p u)) [
  | inl hit ↦
      let same = bytes_eq→eq p u hit in
      ground (
        arith,
        mem-append u order (p ∷ []),
        eq→bytes_eq u p (sym same),
        ap (weight fetch) same,
        ap (λ x. mem_bytes x order) same,
        pending-snoc-le fetch order us p,
      )
  | inr miss ↦ ground (arith, pending-snoc fetch order us p, mem-append u order (p ∷ []))
]

pub add_edge-order : (e : Edge) (who : Bytes) (w : Walk) → (add_edge e who w).order ≡ w.order
unfolding add_edge
add_edge-order e who w = ground arith

pub visit_deps-order :
    (p : Bytes) (ds : Deps) (queue : List Bytes) (w : Walk)
    → (visit_deps p ds queue w).1.order ≡ w.order
unfolding visit_deps
visit_deps-order p [] queue w = refl
visit_deps-order p ((dp, c) ∷ ds) queue w =
    visit_deps-order p ds _ _
    ∙ add_edge-order (record { of_project = p; on_project = dp; constraint = c }) p w

-- The queue grows by the dependencies at most.
length-visit_deps-le :
    (p : Bytes) (ds : Deps) (queue : List Bytes) (w : Walk)
    → length (visit_deps p ds queue w).0 ≤ length queue + length ds
unfolding visit_deps
length-visit_deps-le p [] queue w = omega arith
length-visit_deps-le p ((dp, c) ∷ ds) queue w =
    let w' = add_edge (record { of_project = p; on_project = dp; constraint = c }) p w in
    ground (
      arith,
      length-visit_deps-le p ds queue w',
      length-visit_deps-le p ds (queue ++ dp ∷ []) w',
      length-append {0} queue (dp ∷ []),
    )

length-sorted_entries : (deps : Deps) → length (sorted_entries deps) ≡ length deps
unfolding sorted_entries
length-sorted_entries deps =
    length-map (λ k. (k, get_or k deps [])) (sort_texts (keys deps))
    ∙ length-sort_texts (keys deps)
    ∙ length-keys deps

pub keys-sorted_entries : (deps : Deps) → keys (sorted_entries deps) ≡ sort_texts (keys deps)
unfolding sorted_entries
keys-sorted_entries deps = keys-entries (λ k. get_or k deps []) (sort_texts (keys deps))

-- The projects of `all`.
abbrev pub AreIn : List Bytes → List Bytes → Type 0
AreIn us ps = All (λ p. mem_bytes p us ≡ true) ps

-- What a recipe of a project in `us` names is in `us` too.
abbrev pub IsClosedUnder : Recipes → List Bytes → Type 0
IsClosedUnder fetch us =
    (p : Bytes) (deps : Deps) → mem_bytes p us ≡ true → fetch p ≡ ok deps → AreIn us (keys deps)

visit_deps-AreIn :
    (us : List Bytes) (p : Bytes) (ds : Deps) (queue : List Bytes) (w : Walk)
    → AreIn us (keys ds)
    → AreIn us queue
    → AreIn us (visit_deps p ds queue w).0
unfolding visit_deps
visit_deps-AreIn us p [] queue w h k = k
visit_deps-AreIn us p ((dp, c) ∷ ds) queue w (h, hs) k =
    let w' = add_edge (record { of_project = p; on_project = dp; constraint = c }) p w in
    let longer = All-append (λ q. mem_bytes q us ≡ true) queue (dp ∷ []) k (h, tt) in
    ground (
      arith,
      visit_deps-AreIn us p ds queue w' hs k,
      visit_deps-AreIn us p ds (queue ++ dp ∷ []) w' hs longer,
    )

walk_enough :
    (fetch : Recipes) (us : List Bytes) (fuel : ℕ) (queue : List Bytes) (w : Walk)
    → IsClosedUnder fetch us
    → AreIn us queue
    → length queue + pending fetch w.order us ≤ fuel
    → walk fetch fuel queue w ≢ err out_of_fuel
walk_enough fetch us fuel [] w closed inside enough = λ e. unfold walk in (cc)
walk_enough fetch us zero (p ∷ queue) w closed inside enough = absurd (omega arith)
walk_enough fetch us (suc fuel) (p ∷ queue) w closed (here, inside) enough =
    elim (Bool-cases (mem_bytes p w.order)) [
      | inl old ↦
          rw (walk_old fetch fuel p queue w old)
            (walk_enough fetch us fuel queue w closed inside (omega arith))
      | inr new ↦ elim (Result-cases (fetch p)) [
        | inr (e, failed) ↦ rw (walk_failed fetch fuel p queue w new failed) (λ h. cc)
        | inl (deps, fetched) ↦
            let entries = sorted_entries deps in
            rw (walk_new fetch fuel p queue w deps new fetched) (
              walk_enough fetch us fuel (after fetch fuel p queue w deps).0
                (after fetch fuel p queue w deps).1 closed
                (visit_deps-AreIn us p entries queue (visited p w)
                  (rw keys-sorted_entries (
                    All-sort_texts (λ q. mem_bytes q us ≡ true) (keys deps)
                      (closed p deps here fetched)))
                  inside)
                (omega (
                  arith,
                  ap (λ o. pending fetch o us) (visit_deps-order p entries queue (visited p w)),
                  length-visit_deps-le p entries queue (visited p w),
                  length-sorted_entries deps,
                  pending-snoc fetch w.order us p here new,
                  weight-fetched fetch p deps fetched,
                )))
      ]
    ]

pub add_roots-order : (rs : Deps) (w : Walk) → (add_roots rs w).order ≡ w.order
unfolding add_roots
add_roots-order [] w = refl
add_roots-order ((p, c) ∷ rs) w =
    let e : Edge = record { of_project = []; on_project = p; constraint = c } in
    add_roots-order rs (add_edge e (codes "requested") w) ∙ add_edge-order e (codes "requested") w

-- `collectGraph` ends: where the roots and all that is reachable from them lie in a finite list of
-- projects, fuel for the roots and for every dependency of the listed projects is enough.
pub collect_graph_enough :
    (fetch : Recipes) (us : List Bytes) (roots : Deps) (fuel : ℕ)
    → IsClosedUnder fetch us
    → AreIn us (keys roots)
    → length roots + pending fetch [] us ≤ fuel
    → collect_graph fetch fuel roots ≢ err out_of_fuel
unfolding collect_graph
collect_graph_enough fetch us roots fuel closed inside enough =
    let entries = sorted_entries roots in
    walk_enough fetch us fuel (keys entries) (add_roots entries empty_walk) closed
      (rw keys-sorted_entries (All-sort_texts (λ q. mem_bytes q us ≡ true) (keys roots) inside))
      (omega (
        arith,
        length-sorted_entries roots,
        length-keys entries,
        ap (λ o. pending fetch o us) (add_roots-order entries empty_walk),
      ))
