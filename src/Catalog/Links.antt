-- ===== src/Catalog/Links.antt =====
-- catalog.go: what `WhyDepends` answers.
use Prim.Native.Nat.{zero, suc}
use bottle.Common.{
  ℕ, ◌+◌, ◌≤◌, List, [], ◌∷◌, ◌++◌, ◌≡◌, ◌⊎◌, inl, inr, refl, sym, ap, ◌∙◌, subst, true, false,
  arith, append_assoc,
}
use bottle.Common.Dict.{mem_bytes, mem-append, keys, get_or, set, get_or-set}
use bottle.Common.Lists.{All-append_back, All-map, length}
use bottle.Common.Sort.{sort_texts, All-sort_texts, All-sort_texts_back}
use bottle.Common.Tests.{Bool-cases, if◌then◌else◌}
use bottle.Common.Text.{Bytes, bytes_eq, bytes_eq→eq, eq→bytes_eq}
use bottle.Catalog.{
  CatalogProject, no_project, reached, goes_on, scan_kids, path_back, Why, because, no_link, why_of,
  search_back, index, index_from, deps_at, all_deps, why_depends,
}
use bottle.Catalog.Scanned.{AreAmong, unseen, Scanned, scan_kids-Round}
use bottle.Catalog.Trace.{IsPath, IsTrace, path_back-IsPath}

all_among : (ps qs : List Bytes) → AreAmong (qs ++ ps) ps
all_among [] qs = tt
all_among (p ∷ ps) qs = (
  ground (arith, mem-append p qs (p ∷ ps), eq→bytes_eq p p refl),
  subst (λ t. AreAmong t ps) (append_assoc qs (p ∷ []) ps) (all_among ps (qs ++ p ∷ [])),
)

module _ (deps : Bytes → List Bytes) (from to : Bytes) where
  -- A path from the start to the end, where there is one, and nil where there is none.
  abbrev pub Answers : Why → Type 0
  Answers w =
      ((way : List Bytes) × (w ≡ because way) × IsPath deps from to way)
      ⊎ ((w ≡ no_link) × ((way : List Bytes) → IsPath deps from to way → ⊥))

module _ (deps : Bytes → List Bytes) (from to : Bytes) (us : List Bytes) where
  -- The dependencies of a project were all come by.
  abbrev IsDone : List (Bytes × Bytes) → Bytes → Type 0
  IsDone prev d = AreAmong (keys prev) (deps d)

  start_there :
      (prev : List (Bytes × Bytes)) → IsTrace deps from prev → mem_bytes from (keys prev) ≡ true
  start_there [] trace = absurd trace
  start_there ((d, p) ∷ []) (first, _, _) = ground (arith, eq→bytes_eq from d (sym first))
  start_there ((d, p) ∷ e ∷ prev) (_, _, _, _, trace) = ground (arith, start_there (e ∷ prev) trace)

  among_mem :
      (ks ps : List Bytes) (d : Bytes)
      → AreAmong ks ps
      → mem_bytes d ps ≡ true
      → mem_bytes d ks ≡ true
  among_mem ks [] d h k = absurd cc
  among_mem ks (p ∷ ps) d (h, hs) k = elim (Bool-cases (bytes_eq d p)) [
    | inl hit ↦ subst (λ t. mem_bytes t ks ≡ true) (sym (bytes_eq→eq d p hit)) h
    | inr miss ↦ among_mem ks ps d hs (ground arith)
  ]

  -- A path stays among the projects that were come by, where nothing is left to do.
  path_stays :
      (prev : List (Bytes × Bytes)) (a : Bytes) (way : List Bytes)
      → ((d : Bytes) → mem_bytes d (keys prev) ≡ true → IsDone prev d)
      → mem_bytes a (keys prev) ≡ true
      → IsPath deps a to way
      → mem_bytes to (keys prev) ≡ true
  path_stays prev a [] done here path = absurd path
  path_stays prev a (b ∷ []) done here (first, last) =
      subst (λ t. mem_bytes t (keys prev) ≡ true) (sym first ∙ last) here
  path_stays prev a (b ∷ c ∷ way) done here (first, link, path) =
      let there = subst (λ t. mem_bytes t (keys prev) ≡ true) (sym first) here in
      path_stays prev c (c ∷ way) done (among_mem (keys prev) (deps b) c (done b there) link) path

  search_back_nil :
      (fuel : ℕ) (prev : List (Bytes × Bytes)) → search_back deps to fuel [] prev ≡ no_link
  unfolding search_back
  search_back_nil zero prev = refl
  search_back_nil (suc fuel) prev = refl

  search_back_reached :
      (fuel : ℕ) (p : Bytes) (queue : List Bytes) (prev prev' : List (Bytes × Bytes))
      → scan_kids to p (sort_texts (deps p)) prev queue ≡ reached prev'
      → search_back deps to (suc fuel) (p ∷ queue) prev
        ≡ why_of (path_back prev' (length prev' + 1) to [])
  unfolding search_back
  search_back_reached fuel p queue prev prev' e = ground arith

  search_back_goes_on :
      (fuel : ℕ) (p : Bytes) (queue queue' : List Bytes) (prev prev' : List (Bytes × Bytes))
      → scan_kids to p (sort_texts (deps p)) prev queue ≡ goes_on prev' queue'
      → search_back deps to (suc fuel) (p ∷ queue) prev ≡ search_back deps to fuel queue' prev'
  unfolding search_back
  search_back_goes_on fuel p queue queue' prev prev' e = ground arith

  -- What holds between two rounds.
  record Holds (queue : List Bytes) (prev : List (Bytes × Bytes)) : Type 0 where
    trace : IsTrace deps from prev
    queued : AreAmong (keys prev) queue
    inside : AreAmong us queue
    missed : mem_bytes to (keys prev) ≡ false
    handled :
        (d : Bytes) → mem_bytes d (keys prev) ≡ true → (mem_bytes d queue ≡ true) ⊎ IsDone prev d

  Holds-Round :
      (p : Bytes) (queue queue' : List Bytes) (prev prev' : List (Bytes × Bytes))
      → Holds (p ∷ queue) prev
      → Scanned deps from to us (sort_texts (deps p)) queue queue' prev prev'
      → Holds queue' prev'
  Holds-Round p queue queue' prev prev' h r = record {
    trace = r.trace;
    queued = r.queued;
    inside = r.inside;
    missed = r.missed;
    handled = λ d there. elim (r.added d there) [
      | inr waits ↦ inl waits
      | inl known ↦ elim (h.handled d known) [
        | inr done ↦
            inr
              (All-map (λ k (there : mem_bytes k (keys prev) ≡ true). r.kept k there) (deps d) done)
        | inl waited ↦ elim (Bool-cases (bytes_eq d p)) [
          | inl hit ↦ inr (
              subst (λ t. IsDone prev' t) (sym (bytes_eq→eq d p hit))
                (All-sort_texts_back (λ k. mem_bytes k (keys prev') ≡ true) (deps p) r.scanned))
          | inr miss ↦ inl (r.waits d (ground arith))
        ]
      ]
    ];
  }

  all-IsDone :
      (prev : List (Bytes × Bytes))
      → Holds [] prev
      → (d : Bytes) → mem_bytes d (keys prev) ≡ true
      → IsDone prev d
  all-IsDone prev h d there = elim (h.handled d there) [ inl waits ↦ absurd cc | inr done ↦ done ]

  module _ (closed : (p : Bytes) → mem_bytes p us ≡ true → AreAmong us (deps p))
      (named : mem_bytes [] us ≡ false) where
    search_back-Answers :
        (fuel : ℕ) (queue : List Bytes) (prev : List (Bytes × Bytes))
        → Holds queue prev
        → length queue + unseen us (keys prev) ≤ fuel
        → Answers deps from to (search_back deps to fuel queue prev)
    search_back-Answers fuel [] prev h enough = inr (
      search_back_nil fuel prev,
      λ way path.
          let there =
            path_stays prev from way (λ d k. all-IsDone prev h d k) (start_there prev h.trace)
              path in
          let missed = h.missed in absurd cc,
    )
    search_back-Answers zero (p ∷ queue) prev h enough = absurd (omega arith)
    search_back-Answers (suc fuel) (p ∷ queue) prev h enough =
        let (here, queued) = h.queued in
        let (u, inside) = h.inside in
        elim (scan_kids-Round deps from to us p (sort_texts (deps p)) queue prev
          (All-sort_texts (λ k. mem_bytes k (deps p) ≡ true) (deps p) (all_among (deps p) []))
          (All-sort_texts (λ k. mem_bytes k us ≡ true) (deps p) (closed p u)) named here h.trace
          queued inside h.missed) [
            | inl (prev', e, trace, found) ↦
                let (way, read, path) = path_back-IsPath deps from to prev' trace found in
                inl (way, search_back_reached fuel p queue prev prev' e ∙ ap why_of read, path)
            | inr (prev', queue', e, r) ↦
                let shorter = r.shorter in
                subst (Answers deps from to)
                  (sym (search_back_goes_on fuel p queue queue' prev prev' e))
                  (search_back-Answers fuel queue' prev' (Holds-Round p queue queue' prev prev' h r)
                    (omega arith))
          ]

index_from-AreAmong :
    (us : List Bytes) (ix : List (Bytes × CatalogProject)) (ps : List CatalogProject)
    → ((p : Bytes) → AreAmong us (deps_at ix p))
    → AreAmong us (all_deps ps)
    → (p : Bytes) → AreAmong us (deps_at (index_from ix ps) p)
unfolding index_from all_deps
index_from-AreAmong us ix [] h k p = h p
index_from-AreAmong us ix (q ∷ ps) h k p =
    let (own, rest) = All-append_back (λ d. mem_bytes d us ≡ true) q.deps (all_deps ps) k in
    index_from-AreAmong us (set q.project q ix) ps (λ p'. set_deps p' own) rest p
  where
    set_deps : (p' : Bytes) → AreAmong us q.deps → AreAmong us (deps_at (set q.project q ix) p')
    set_deps p' own =
        let stored =
          ap (λ (e : CatalogProject). e.deps) (get_or-set q.project p' q no_project ix) in
        subst (AreAmong us) (sym stored)
          (elim (bytes_eq p' q.project)
            as (λ b. AreAmong us (if b then q else get_or p' ix no_project).deps) [
              | true ↦ own
              | false ↦ h p'
            ])

index-AreAmong :
    (us : List Bytes) (ps : List CatalogProject)
    → AreAmong us (all_deps ps)
    → (p : Bytes) → AreAmong us (deps_at (index ps) p)
unfolding index get_or
index-AreAmong us ps h p = index_from-AreAmong us [] ps (λ p'. tt) h p

unseen-le : (us ks : List Bytes) → unseen us ks ≤ length us
unseen-le [] ks = omega arith
unseen-le (u ∷ us) ks = ground (arith, unseen-le us ks)

unseen-cons-front : (u : Bytes) (us : List Bytes) → unseen (u ∷ us) (u ∷ []) ≤ length us
unseen-cons-front u us = ground (arith, eq→bytes_eq u u refl, unseen-le us (u ∷ []))

Holds-start :
    (deps : Bytes → List Bytes) (from to : Bytes) (us : List Bytes)
    → mem_bytes from us ≡ true
    → mem_bytes [] us ≡ false
    → bytes_eq from to ≡ false
    → Holds deps from to us (from ∷ []) ((from, []) ∷ [])
Holds-start deps from to us own named other = record {
  trace = (refl, refl, λ e. let same = ap (λ t. mem_bytes t us) e in absurd cc);
  queued = (ground (arith, eq→bytes_eq from from refl), tt);
  inside = (own, tt);
  missed = ground (arith, bytes_eq→eq to from, eq→bytes_eq from to);
  handled = λ d there. inl there;
}

-- Whatever catalogue is asked, where neither the start nor any dependency has the empty name:
-- `WhyDepends` ends, and it answers with a path from one project to the other in which each is a
-- dependency of the one before it, or with nil, and then there is no such path.
pub why_depends-Answers :
    (ps : List CatalogProject) (from to : Bytes)
    → mem_bytes [] (from ∷ all_deps ps) ≡ false
    → Answers (deps_at (index ps)) from to (why_depends ps from to)
unfolding why_depends
why_depends-Answers ps from to named = elim (Bool-cases (bytes_eq from to)) [
  | inl same ↦
      let one : why_depends ps from to ≡ because (from ∷ []) = ground arith in
      inl (from ∷ [], one, (refl, bytes_eq→eq from to same))
  | inr other ↦
      let deps = deps_at (index ps) in
      let us = from ∷ all_deps ps in
      let own : mem_bytes from us ≡ true = ground (arith, eq→bytes_eq from from refl) in
      let among : AreAmong us (all_deps ps) = all_among (all_deps ps) (from ∷ []) in
      let fuel = length (all_deps ps) + 1 in
      let steps : why_depends ps from to ≡ search_back deps to fuel (from ∷ []) ((from, []) ∷ []) =
        ground arith in
      subst (Answers deps from to) (sym steps) (
        search_back-Answers deps from to us (λ p u. index-AreAmong us ps among p) named fuel
          (from ∷ []) ((from, []) ∷ []) (Holds-start deps from to us own named other)
          (omega (arith, unseen-cons-front from (all_deps ps))))
]
