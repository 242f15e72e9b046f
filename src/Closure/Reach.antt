-- ===== src/Closure/Reach.antt =====
-- The projects that `collectGraph` has listed at its end: each once, and all that are named.
use bottle.Common.{
  ℕ, List, [], ◌∷◌, ◌++◌, ◌≡◌, ◌∙◌, inl, inr, refl, subst, true, false, ◌||◌, arith, append_assoc,
  append-nil,
}
use bottle.Common.Dict.{mem-append, IsOnce, mem_bytes, keys}
use bottle.Common.Lists.{All, All-append, All-map}
use bottle.Common.Result.{ok}
use bottle.Common.Tests.{Bool-cases, if◌then◌else◌}
use bottle.Common.Text.{Bytes, codes, bytes_eq, bytes_eq→eq, eq→bytes_eq}
use bottle.Closure.{
  Deps, Edge, Walk, Recipes, add_edge, add_roots, sorted_entries, visit_deps, visited,
  collect_graph, empty_walk,
}
use bottle.Closure.Ends.{add_edge-order}
use bottle.Closure.Named.{AllOf, IsRead, add_edge-edges, collect_graph-Told}
use bottle.Closure.Steps.{Rule, walk_ind}

-- The project that each edge points at is listed already or stands in the queue.
abbrev pub IsReached : List Bytes → Edge → Type 0
IsReached ps e = mem_bytes e.on_project ps ≡ true

record Covers (queue : List Bytes) (w : Walk) : Type 0 where
  once : IsOnce w.order
  reached : All (IsReached (w.order ++ queue)) w.edges

mem-cons :
    (q p : Bytes) (order queue : List Bytes)
    → mem_bytes q (order ++ p ∷ queue) ≡ (bytes_eq q p || mem_bytes q (order ++ queue))
mem-cons q p order queue = ground (arith, mem-append q order (p ∷ queue), mem-append q order queue)

IsOnce-snoc :
    (ps : List Bytes) (p : Bytes) → IsOnce ps → mem_bytes p ps ≡ false → IsOnce (ps ++ p ∷ [])
IsOnce-snoc [] p h k = (refl, tt)
IsOnce-snoc (q ∷ ps) p (h, hs) k =
    ground (arith, IsOnce-snoc ps p hs, mem-append q ps (p ∷ []), bytes_eq→eq q p, eq→bytes_eq p q)

-- A project that was listed already may leave the queue.
drop_seen :
    (p : Bytes) (queue : List Bytes) (w : Walk)
    → mem_bytes p w.order ≡ true
    → Covers (p ∷ queue) w
    → Covers queue w
drop_seen p queue w seen h = record {
  once = h.once;
  reached =
      All-map
        (λ e (k : IsReached (w.order ++ p ∷ queue) e). ground (
          arith,
          mem-cons e.on_project p w.order queue,
          mem-append e.on_project w.order queue,
          bytes_eq→eq e.on_project p,
        ))
        w.edges h.reached;
}

grow-Covers :
    (e : Edge) (who : Bytes) (queue queue' : List Bytes) (w : Walk)
    → Covers queue w
    → IsReached (w.order ++ queue') e
    → ((q : Bytes) → mem_bytes q (w.order ++ queue) ≡ true → mem_bytes q (w.order ++ queue') ≡ true)
    → Covers queue' (add_edge e who w)
grow-Covers e who queue queue' w h own more = record {
  once = rw (add_edge-order e who w) h.once;
  reached =
      rw (add_edge-edges e who w, add_edge-order e who w)
        (All-append (IsReached (w.order ++ queue')) w.edges (e ∷ [])
          (All-map (λ d (k : IsReached (w.order ++ queue) d). more d.on_project k) w.edges
            h.reached)
          (own, tt));
}

mem-snoc :
    (q p : Bytes) (order queue : List Bytes)
    → mem_bytes q (order ++ queue ++ p ∷ []) ≡ (mem_bytes q (order ++ queue) || bytes_eq q p)
mem-snoc q p order queue = ground (arith, mem-append q (order ++ queue) (p ∷ []))

add_edge-Covers :
    (e : Edge) (who : Bytes) (queue : List Bytes) (w : Walk)
    → Covers queue w
    → Covers
        (if mem_bytes e.on_project w.order then queue else queue ++ e.on_project ∷ [])
        (add_edge e who w)
add_edge-Covers e who queue w h = elim (Bool-cases (mem_bytes e.on_project w.order)) [
  | inl seen ↦ rw seen (
      grow-Covers e who queue queue w h (ground (arith, mem-append e.on_project w.order queue))
        (λ q k. k))
  | inr new ↦ rw new (
      grow-Covers e who queue (queue ++ e.on_project ∷ []) w h
        (rw (← append_assoc) (
          ground (
            arith,
            mem-snoc e.on_project e.on_project w.order queue,
            eq→bytes_eq e.on_project e.on_project refl,
          )))
        (λ q k. rw (← append_assoc) (ground (arith, mem-snoc q e.on_project w.order queue))))
]

visit_deps-Covers :
    (p : Bytes) (ds : Deps) (queue : List Bytes) (w : Walk)
    → Covers queue w
    → Covers (visit_deps p ds queue w).0 (visit_deps p ds queue w).1
unfolding visit_deps
visit_deps-Covers p [] queue w h = h
visit_deps-Covers p ((dp, c) ∷ ds) queue w h =
    let e : Edge = record { of_project = p; on_project = dp; constraint = c } in
    visit_deps-Covers p ds _ (add_edge e p w) (add_edge-Covers e p queue w h)

visited-Covers :
    (p : Bytes) (queue : List Bytes) (w : Walk)
    → mem_bytes p w.order ≡ false
    → Covers (p ∷ queue) w
    → Covers queue (visited p w)
visited-Covers p queue w new h = record {
  once = IsOnce-snoc w.order p h.once new;
  reached = rw append_assoc h.reached;
}

Covers-rule : (fetch : Recipes) → Rule fetch Covers
Covers-rule fetch = record {
  old = drop_seen;
  new = λ p queue w deps unseen fetched h.
      visit_deps-Covers p (sorted_entries deps) queue (visited p w)
        (visited-Covers p queue w unseen h);
}

add_roots-Covers :
    (rs : Deps) (queue : List Bytes) (w : Walk)
    → w.order ≡ []
    → Covers queue w
    → All (λ r. mem_bytes r queue ≡ true) (keys rs)
    → Covers queue (add_roots rs w)
unfolding add_roots
add_roots-Covers [] queue w start h k = h
add_roots-Covers ((p, c) ∷ rs) queue w start h (k, ks) =
    let e : Edge = record { of_project = []; on_project = p; constraint = c } in
    add_roots-Covers rs queue (add_edge e (codes "requested") w)
      (add_edge-order e (codes "requested") w ∙ start)
      (grow-Covers e (codes "requested") queue queue w h (rw start k) (λ q l. l)) ks

mem_self : (ps : List Bytes) → All (λ r. mem_bytes r ps ≡ true) ps
mem_self [] = tt
mem_self (p ∷ ps) = (
  ground (arith, eq→bytes_eq p p refl),
  All-map (λ q (k : mem_bytes q ps ≡ true). ground arith) ps (mem_self ps),
)

collect_graph-IsReached :
    (fetch : Recipes) (fuel : ℕ) (roots : Deps) (w : Walk)
    → collect_graph fetch fuel roots ≡ ok w
    → IsOnce w.order × All (IsReached w.order) w.edges
unfolding collect_graph
collect_graph-IsReached fetch fuel roots w e =
    let entries = sorted_entries roots in
    let done =
      walk_ind (Covers-rule fetch) fuel (keys entries) (add_roots entries empty_walk) w
        (add_roots-Covers entries (keys entries) empty_walk refl
          (record { once = tt; reached = tt }) (mem_self (keys entries)))
        e in
    (done.once, subst (λ o. All (IsReached o) w.edges) (append-nil w.order) done.reached)

-- In a walk that `collectGraph` returns no project stands twice in `order`, and each listed project has
-- a recipe that was read. Every project that the operator names stands in `order`, and so does every
-- one that the recipe of a listed project names, and every one that an edge points at.
pub collect_graph-order :
    (fetch : Recipes) (fuel : ℕ) (roots : Deps) (w : Walk)
    → collect_graph fetch fuel roots ≡ ok w
    → IsOnce w.order
      × AllOf (IsReached w.order) [] roots
      × All (IsRead (IsReached w.order) fetch) w.order
      × All (IsReached w.order) w.edges
collect_graph-order fetch fuel roots w e =
    let (once, reached) = collect_graph-IsReached fetch fuel roots w e in
    let (asked, listed) = collect_graph-Told (IsReached w.order) fetch roots fuel w e reached in
    (once, asked, listed, reached)
