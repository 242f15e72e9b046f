-- ===== src/Resolve/Answers.antt =====
-- What `ResolveClosureFor` returns answers every edge of the walk that it resolves.
use bottle.Common.{ℕ, List, [], ◌∷◌, ◌++◌, ◌≡◌, inl, inr, refl, Bool, true, ◌||◌, ◌&&◌, arith}
use bottle.Common.Dict.{mem_bytes}
use bottle.Common.Lists.{any, All}
use bottle.Common.Result.{ok, err, Result-cases}
use bottle.Common.Tests.{Bool-cases}
use bottle.Common.Text.{Bytes, bytes_eq, bytes_eq→eq, eq→bytes_eq}
use bottle.Closure.{Deps, Edge, Walk, demands, is_any, collect_graph}
use bottle.Closure.Demands.{IsKept, collect_graph-IsConsistent}
use bottle.Closure.Named.{AllOf, IsRead, collect_graph-Told}
use bottle.Closure.Reach.{IsReached, collect_graph-order}
use bottle.Constraint.{satisfies}
use bottle.Lines.{pick_abi_lines}
use bottle.Lines.Cover.{IsSound, met, satisfies_all-mem, pick_abi_lines-met}
use bottle.Pick.{Project, PickError, failed, Failure, pick_version_for_all}
use bottle.Pick.Sound.{pick_version_for_all_sound}
use bottle.Resolve.{
  World, Resolved, pick_one, resolve_project, resolved, resolve_order, resolve_closure_for,
}
use bottle.Version.{Ver}

-- Some result of the project meets the constraint.
abbrev pub answered : Bytes → Bytes → List Resolved → Bool
answered p c rs = any (λ r. bytes_eq r.project p && satisfies r.version c) rs

unlisted :
    (p : Project) (constraints : List Bytes) (f : Failure)
    → p.versions ≡ err f
    → (x : PickError) × (pick_version_for_all p constraints ≡ err x)
unfolding pick_version_for_all
unlisted p constraints f e = (failed f, ground arith)

pub pick_one-IsSound : (world : World) (p : Bytes) → IsSound (pick_one world p)
pick_one-IsSound world p g v e = elim (Result-cases (pick_version_for_all (world.project p) g)) [
  | inr (x, k) ↦ absurd (ground arith)
  | inl ((w, line), k) ↦ elim (Result-cases (world.project p).versions) [
    | inr (f, l) ↦ let (x, refusal) = unlisted (world.project p) g f l in absurd (ground arith)
    | inl ((vs, from), l) ↦
        let same : w ≡ v = ground arith in
        rw (← same) ((pick_version_for_all_sound (world.project p) g vs from w line l k).0)
  ]
]

resolve_project-met :
    (world : World) (w : Walk) (p c : Bytes) (vers : List Ver)
    → resolve_project world w p ≡ ok vers
    → mem_bytes c (demands p w.constraints) ≡ true
    → met vers c ≡ true
unfolding resolve_project
resolve_project-met world w p c vers e h =
    elim (Result-cases (pick_one world p (demands p w.constraints))) [
      | inl (v, k) ↦ ground (
        arith,
        satisfies_all-mem v (demands p w.constraints) c
            (pick_one-IsSound world p (demands p w.constraints) v k) h,
      )
      | inr (x, k) ↦
          elim (Result-cases
            (pick_abi_lines (pick_one world p) (world.provides p) (demands p w.constraints))) [
              | inr (y, l) ↦ absurd (ground arith)
              | inl (vs, l) ↦
                  let same : vs ≡ vers = ground arith in
                  rw (← same) (
                    pick_abi_lines-met (pick_one world p) (world.provides p)
                      (demands p w.constraints) vs c (pick_one-IsSound world p) l h)
            ]
    ]

answered-append :
    (p c : Bytes) (rs ss : List Resolved)
    → answered p c (rs ++ ss) ≡ (answered p c rs || answered p c ss)
answered-append p c [] ss = refl
answered-append p c (r ∷ rs) ss = ground (arith, answered-append p c rs ss)

answered-resolved : (p c : Bytes) (vers : List Ver) → answered p c (resolved p vers) ≡ met vers c
answered-resolved p c [] = refl
answered-resolved p c (v ∷ vers) = ground (arith, answered-resolved p c vers, eq→bytes_eq p p refl)

-- The rest of a resolution, behind its first project.
resolve_order_cons :
    (world : World) (w : Walk) (p : Bytes) (ps : List Bytes) (rs : List Resolved)
    → resolve_order world w (p ∷ ps) ≡ ok rs
    → (vers : List Ver) × (rest : List Resolved) × (resolve_project world w p ≡ ok vers)
      × (resolve_order world w ps ≡ ok rest)
      × (rs ≡ resolved p vers ++ rest)
unfolding resolve_order
resolve_order_cons world w p ps rs e = elim (Result-cases (resolve_project world w p)) [
  | inr (x, k) ↦ absurd (ground arith)
  | inl (vers, k) ↦ elim (Result-cases (resolve_order world w ps)) [
    | inr (x, l) ↦ absurd (ground arith)
    | inl (rest, l) ↦ (vers, rest, k, l, ground arith)
  ]
]

resolve_order-answered :
    (world : World) (w : Walk) (ps : List Bytes) (rs : List Resolved) (p c : Bytes)
    → resolve_order world w ps ≡ ok rs
    → mem_bytes p ps ≡ true
    → mem_bytes c (demands p w.constraints) ≡ true
    → answered p c rs ≡ true
resolve_order-answered world w [] rs p c e h k = cc
resolve_order-answered world w (q ∷ ps) rs p c e h k =
    let (vers, rest, here, others, joined) = resolve_order_cons world w q ps rs e in
    let now = answered-resolved q c vers in
    let apart = answered-append p c (resolved q vers) rest in
    let later = resolve_order-answered world w ps rest p c others in
    rw (joined, apart)
      (elim (Bool-cases (bytes_eq p q)) [
        | inr other ↦ ground arith
        | inl same ↦
            let is_q = bytes_eq→eq p q same in
            let good = resolve_project-met world w q c vers here in ground arith
      ])

-- The constraint of an edge is met by a result for the project that the edge points at, unless the
-- constraint says nothing.
abbrev pub IsAnswered : List Resolved → Edge → Type 0
IsAnswered rs e = (is_any e.constraint || answered e.on_project e.constraint rs) ≡ true

All-zip :
    (P Q R : Edge → Type 0) (es : List Edge)
    → ((e : Edge) → P e → Q e → R e)
    → All P es
    → All Q es
    → All R es
All-zip P Q R [] f h k = tt
All-zip P Q R (e ∷ es) f (h, hs) (k, ks) = (f e h k, All-zip P Q R es f hs ks)

resolve_closure_for-edges :
    (world : World) (fuel : ℕ) (roots : Deps) (w : Walk) (rs : List Resolved)
    → collect_graph world.recipes fuel roots ≡ ok w
    → resolve_closure_for world fuel roots ≡ ok rs
    → All (IsAnswered rs) w.edges
unfolding resolve_closure_for
resolve_closure_for-edges world fuel roots w rs walked e =
    let resolved_all : resolve_order world w w.order ≡ ok rs = ground arith in
    let (once, asked, listed, reached) = collect_graph-order world.recipes fuel roots w walked in
    All-zip (IsKept w.constraints) (IsReached w.order) (IsAnswered rs) w.edges
      (λ d k r.
        ground (
          arith,
          resolve_order-answered world w w.order rs d.on_project d.constraint resolved_all r,
        ))
      (collect_graph-IsConsistent world.recipes fuel roots w walked).kept reached

-- When the walk and `ResolveClosureFor` succeed, then each demand of the operator and each demand that
-- the recipe of a listed project makes, where its constraint says something, is answered: a version
-- among the results is of the project that the demand is on and satisfies the constraint. So is the
-- demand of each edge of the walk.
pub resolve_closure_for-IsAnswered :
    (world : World) (fuel : ℕ) (roots : Deps) (w : Walk) (rs : List Resolved)
    → collect_graph world.recipes fuel roots ≡ ok w
    → resolve_closure_for world fuel roots ≡ ok rs
    → AllOf (IsAnswered rs) [] roots
      × All (IsRead (IsAnswered rs) world.recipes) w.order
      × All (IsAnswered rs) w.edges
resolve_closure_for-IsAnswered world fuel roots w rs walked e =
    let edges = resolve_closure_for-edges world fuel roots w rs walked e in
    let (asked, listed) =
      collect_graph-Told (IsAnswered rs) world.recipes roots fuel w walked edges in
    (asked, listed, edges)
