-- ===== src/Catalog/Scanned.antt =====
-- catalog.go: one round of the search of `WhyDepends`.
use bottle.Common.{
  ℕ, ◌+◌, ◌≤◌, List, [], ◌∷◌, ◌++◌, ◌≡◌, ◌≢◌, ◌⊎◌, inl, inr, refl, sym, ap, subst, true, false,
  arith,
}
use bottle.Common.Dict.{mem_bytes, mem-append, keys}
use bottle.Common.Lists.{All, All-append, All-map, length, length-append}
use bottle.Common.Tests.{Bool-cases, if◌then◌else◌}
use bottle.Common.Text.{Bytes, bytes_eq, bytes_eq→eq, eq→bytes_eq}
use bottle.Catalog.{Scan, reached, goes_on, scan_kids}
use bottle.Catalog.Trace.{IsTrace}

-- How many of the projects have not been come by.
abbrev pub unseen : List Bytes → List Bytes → ℕ
unseen [] ks = 0
unseen (u ∷ us) ks = (if mem_bytes u ks then 0 else 1) + unseen us ks

unseen-cons-le : (us ks : List Bytes) (d : Bytes) → unseen us (d ∷ ks) ≤ unseen us ks
unseen-cons-le [] ks d = omega arith
unseen-cons-le (u ∷ us) ks d = ground (arith, unseen-cons-le us ks d)

unseen-cons :
    (us ks : List Bytes) (d : Bytes)
    → mem_bytes d us ≡ true
    → mem_bytes d ks ≡ false
    → unseen us (d ∷ ks) + 1 ≤ unseen us ks
unseen-cons [] ks d h k = absurd cc
unseen-cons (u ∷ us) ks d h k = elim (Bool-cases (bytes_eq d u)) [
  | inl hit ↦
      let same = bytes_eq→eq d u hit in
      ground
        (arith, eq→bytes_eq u d (sym same), ap (λ t. mem_bytes t ks) same, unseen-cons-le us ks d)
  | inr miss ↦ ground (arith, unseen-cons us ks d (ground arith) k)
]

-- All of these are among those.
abbrev pub AreAmong : List Bytes → List Bytes → Type 0
AreAmong ks ps = All (λ p. mem_bytes p ks ≡ true) ps

module _ (deps : Bytes → List Bytes) (from to : Bytes) (us : List Bytes) where
  -- What a round leaves of the projects `prev` and the queue.
  pub record Scanned (kids queue queue' : List Bytes) (prev prev' : List (Bytes × Bytes))
      : Type 0 where
    pub trace : IsTrace deps from prev'
    pub queued : AreAmong (keys prev') queue'
    pub inside : AreAmong us queue'
    pub missed : mem_bytes to (keys prev') ≡ false
    pub kept : (d : Bytes) → mem_bytes d (keys prev) ≡ true → mem_bytes d (keys prev') ≡ true
    pub waits : (d : Bytes) → mem_bytes d queue ≡ true → mem_bytes d queue' ≡ true
    pub added :
        (d : Bytes)
        → mem_bytes d (keys prev') ≡ true
        → (mem_bytes d (keys prev) ≡ true) ⊎ (mem_bytes d queue' ≡ true)
    pub scanned : AreAmong (keys prev') kids
    pub shorter : length queue' + unseen us (keys prev') ≤ length queue + unseen us (keys prev)

  -- A round reaches the end, or goes on.
  abbrev pub Round : (kids queue : List Bytes) → (prev : List (Bytes × Bytes)) → Scan → Type 0
  Round kids queue prev s =
      ((prev' : List (Bytes × Bytes)) × (s ≡ reached prev')
        × IsTrace deps from prev'
        × (mem_bytes to (keys prev') ≡ true))
      ⊎ ((prev' : List (Bytes × Bytes)) × (queue' : List Bytes) × (s ≡ goes_on prev' queue')
          × Scanned kids queue queue' prev prev')

  IsTrace-cons :
      (d p : Bytes) (prev : List (Bytes × Bytes))
      → IsTrace deps from prev
      → mem_bytes p (keys prev) ≡ true
      → mem_bytes d (keys prev) ≡ false
      → d ≢ []
      → mem_bytes d (deps p) ≡ true
      → IsTrace deps from ((d, p) ∷ prev)
  IsTrace-cons d p [] trace known new filled edge = absurd trace
  IsTrace-cons d p (e ∷ prev) trace known new filled edge = (known, new, filled, edge, trace)

  scan_kids_old :
      (p d : Bytes) (ds queue : List Bytes) (prev : List (Bytes × Bytes))
      → mem_bytes d (keys prev) ≡ true
      → scan_kids to p (d ∷ ds) prev queue ≡ scan_kids to p ds prev queue
  unfolding scan_kids
  scan_kids_old p d ds queue prev h = ground arith

  scan_kids_end :
      (p d : Bytes) (ds queue : List Bytes) (prev : List (Bytes × Bytes))
      → mem_bytes d (keys prev) ≡ false
      → bytes_eq d to ≡ true
      → scan_kids to p (d ∷ ds) prev queue ≡ reached ((d, p) ∷ prev)
  unfolding scan_kids
  scan_kids_end p d ds queue prev h k = ground arith

  scan_kids_new :
      (p d : Bytes) (ds queue : List Bytes) (prev : List (Bytes × Bytes))
      → mem_bytes d (keys prev) ≡ false
      → bytes_eq d to ≡ false
      → scan_kids to p (d ∷ ds) prev queue ≡ scan_kids to p ds ((d, p) ∷ prev) (queue ++ d ∷ [])
  unfolding scan_kids
  scan_kids_new p d ds queue prev h k = ground arith

  scan_kids_none :
      (p : Bytes) (queue : List Bytes) (prev : List (Bytes × Bytes))
      → scan_kids to p [] prev queue ≡ goes_on prev queue
  unfolding scan_kids
  scan_kids_none p queue prev = refl

  Round-old :
      (d : Bytes) (ds queue : List Bytes) (prev : List (Bytes × Bytes)) (s : Scan)
      → mem_bytes d (keys prev) ≡ true
      → Round ds queue prev s
      → Round (d ∷ ds) queue prev s
  Round-old d ds queue prev s h (inl found) = inl found
  Round-old d ds queue prev s h (inr (prev', queue', e, r)) = inr (
    prev',
    queue',
    e,
    record {
      trace = r.trace;
      queued = r.queued;
      inside = r.inside;
      missed = r.missed;
      kept = r.kept;
      waits = r.waits;
      added = r.added;
      scanned = (r.kept d h, r.scanned);
      shorter = r.shorter;
    },
  )

  Round-new :
      (d p : Bytes) (ds queue : List Bytes) (prev : List (Bytes × Bytes)) (s : Scan)
      → mem_bytes d us ≡ true
      → mem_bytes d (keys prev) ≡ false
      → Round ds (queue ++ d ∷ []) ((d, p) ∷ prev) s
      → Round (d ∷ ds) queue prev s
  Round-new d p ds queue prev s u h (inl found) = inl found
  Round-new d p ds queue prev s u h (inr (prev', queue', e, r)) =
      let here : mem_bytes d (keys ((d, p) ∷ prev)) ≡ true = ground (arith, eq→bytes_eq d d refl) in
      let pushed : mem_bytes d (queue ++ d ∷ []) ≡ true =
        ground (arith, mem-append d queue (d ∷ []), eq→bytes_eq d d refl) in
      inr (
        prev',
        queue',
        e,
        record {
          trace = r.trace;
          queued = r.queued;
          inside = r.inside;
          missed = r.missed;
          kept = λ k there. r.kept k (ground arith);
          waits = λ k there. r.waits k (ground (arith, mem-append k queue (d ∷ [])));
          added = λ k there. elim (r.added k there) [
            | inr later ↦ inr later
            | inl known ↦ elim (Bool-cases (bytes_eq k d)) [
              | inl hit ↦ inr (
                  subst (λ t. mem_bytes t queue' ≡ true) (sym (bytes_eq→eq k d hit))
                    (r.waits d pushed))
              | inr miss ↦ inl (ground arith)
            ]
          ];
          scanned = (r.kept d here, r.scanned);
          shorter = omega (
            arith,
            r.shorter,
            length-append {0} queue (d ∷ []),
            unseen-cons us (keys prev) d u h,
          );
        },
      )

  -- A round over dependencies of a project that was come by.
  pub scan_kids-Round :
      (p : Bytes) (kids queue : List Bytes) (prev : List (Bytes × Bytes))
      → AreAmong (deps p) kids
      → AreAmong us kids
      → mem_bytes [] us ≡ false
      → mem_bytes p (keys prev) ≡ true
      → IsTrace deps from prev
      → AreAmong (keys prev) queue
      → AreAmong us queue
      → mem_bytes to (keys prev) ≡ false
      → Round kids queue prev (scan_kids to p kids prev queue)
  scan_kids-Round p [] queue prev edges known named here trace queued inside missed = inr (
    prev,
    queue,
    scan_kids_none p queue prev,
    record {
      trace = trace;
      queued = queued;
      inside = inside;
      missed = missed;
      kept = λ d h. h;
      waits = λ d h. h;
      added = λ d h. inl h;
      scanned = tt;
      shorter = omega arith;
    },
  )
  scan_kids-Round p (d ∷ ds) queue prev (edge, edges) (u, known) named here trace queued inside
        missed =
      elim (Bool-cases (mem_bytes d (keys prev))) [
        | inl old ↦ subst (Round (d ∷ ds) queue prev) (sym (scan_kids_old p d ds queue prev old)) (
            Round-old d ds queue prev (scan_kids to p ds prev queue) old
              (scan_kids-Round p ds queue prev edges known named here trace queued inside missed))
        | inr new ↦
            let filled : d ≢ [] = λ e. let same = ap (λ t. mem_bytes t us) e in absurd cc in
            let trace' = IsTrace-cons d p prev trace here new filled edge in
            elim (Bool-cases (bytes_eq d to)) [
              | inl hit ↦ inl (
                (d, p) ∷ prev,
                scan_kids_end p d ds queue prev new hit,
                trace',
                ground (arith, eq→bytes_eq to d (sym (bytes_eq→eq d to hit))),
              )
              | inr miss ↦
                  subst (Round (d ∷ ds) queue prev) (sym (scan_kids_new p d ds queue prev new miss))
                    (Round-new d p ds queue prev
                      (scan_kids to p ds ((d, p) ∷ prev) (queue ++ d ∷ [])) u new
                      (scan_kids-Round p ds (queue ++ d ∷ []) ((d, p) ∷ prev) edges known named
                        (ground arith) trace'
                        (All-append (λ q. mem_bytes q (d ∷ keys prev) ≡ true) queue (d ∷ [])
                          (All-map (λ q (h : mem_bytes q (keys prev) ≡ true). ground arith) queue
                            queued)
                          (ground (arith, eq→bytes_eq d d refl), tt))
                        (All-append (λ q. mem_bytes q us ≡ true) queue (d ∷ []) inside (u, tt))
                        (ground (arith, other_way d to miss))))
            ]
      ]
    where
      other_way : (a b : Bytes) → bytes_eq a b ≡ false → bytes_eq b a ≡ false
      other_way a b h = elim (Bool-cases (bytes_eq b a)) [
        | inr k ↦ k
        | inl k ↦ let back = eq→bytes_eq a b (sym (bytes_eq→eq b a k)) in absurd cc
      ]
