-- ===== src/Complete/Accounted.antt =====
-- closure.go and closure_macho.go: what becomes of the names that a completion looks for.
use bottle.Common.{
  List, [], ◌∷◌, ◌++◌, ◌≡◌, ◌⊎◌, inl, inr, sym, subst, ap, ◌∙◌, true, false, Option, none, some,
  refl, arith, map,
}
use bottle.Common.Dict.{mem_bytes, mem-append}
use bottle.Common.Lists.{All, All-map}
use bottle.Common.Tests.{Bool-cases}
use bottle.Common.Text.{Bytes, bytes_eq, bytes_eq→eq, eq→bytes_eq}
use bottle.Resolve.{Resolved}
use bottle.Complete.{bottle_key, Progress, note_provider}

-- The builds of a closure.
abbrev bottle_keys : List Resolved → List Bytes
bottle_keys [] = []
bottle_keys (r ∷ rs) = bottle_key r ∷ bottle_keys rs

bottle_keys-append :
    (rs qs : List Resolved) → bottle_keys (rs ++ qs) ≡ bottle_keys rs ++ bottle_keys qs
bottle_keys-append [] qs = refl
bottle_keys-append (r ∷ rs) qs = ap (λ ks. bottle_key r ∷ ks) (bottle_keys-append rs qs)

-- The build is in the closure.
abbrev IsBuilt : List Resolved → Bytes → Type 0
IsBuilt c k = mem_bytes k (bottle_keys c) ≡ true

IsBuilt-append : (c d : List Resolved) (k : Bytes) → IsBuilt c k → IsBuilt (c ++ d) k
IsBuilt-append c d k h =
    ap (mem_bytes k) (bottle_keys-append c d)
    ∙ ground (arith, mem-append k (bottle_keys c) (bottle_keys d))

IsBuilt-new : (c : List Resolved) (r : Resolved) → IsBuilt (c ++ r ∷ []) (bottle_key r)
IsBuilt-new c r =
    ap (mem_bytes (bottle_key r)) (bottle_keys-append c (r ∷ []))
    ∙ ground (
      arith,
      mem-append (bottle_key r) (bottle_keys c) (bottle_key r ∷ []),
      eq→bytes_eq (bottle_key r) (bottle_key r) refl,
    )

pub All-mem :
    (P : Bytes → Type 0) (k : Bytes) (ks : List Bytes) → All P ks → mem_bytes k ks ≡ true → P k
All-mem P k [] h e = absurd (ground arith)
All-mem P k (j ∷ ks) (h, hs) e = elim (Bool-cases (bytes_eq k j)) [
  | inl same ↦ subst P (sym (bytes_eq→eq k j same)) h
  | inr other ↦ All-mem P k ks hs (ground arith)
]

bottle_keys-IsBuilt : (c : List Resolved) → All (IsBuilt c) (bottle_keys c)
bottle_keys-IsBuilt [] = tt
bottle_keys-IsBuilt (r ∷ c) = (
  ground (arith, eq→bytes_eq (bottle_key r) (bottle_key r) refl),
  All-map (λ k (h : IsBuilt c k). ground arith) (bottle_keys c) (bottle_keys-IsBuilt c),
)

module _ (Excused : Bytes → Type 0) (Answer : Bytes → Resolved → Type 0) where
  -- A name that nothing is to be found for, or that a search answered with a build of the closure.
  abbrev pub IsAccounted : List Resolved → Bytes → Type 0
  IsAccounted c k =
      Excused k ⊎ ((r : Resolved) × Answer k r × (mem_bytes (bottle_key r) (bottle_keys c) ≡ true))

  pub IsAccounted-append :
      (c d : List Resolved) (k : Bytes) → IsAccounted c k → IsAccounted (c ++ d) k
  IsAccounted-append c d k (inl free) = inl free
  IsAccounted-append c d k (inr (r, found, there)) =
      inr (r, found, IsBuilt-append c d (bottle_key r) there)

  -- The names that were tried are accounted for, and the builds that are noted are in the closure.
  abbrev pub IsNoted : Progress → Type 0
  IsNoted p = All (IsAccounted p.closure) p.tried_soname × All (IsBuilt p.closure) p.installed_ver

  pub IsNoted-start :
      (c : List Resolved) (have : List Bytes)
      → IsNoted (record {
        closure = c;
        have = have;
        installed_ver = map bottle_key c;
        tried_soname = [];
        changed = false;
      })
  IsNoted-start c have = (tt, subst (All (IsBuilt c)) (same c) (bottle_keys-IsBuilt c))
    where
      same : (c : List Resolved) → bottle_keys c ≡ map bottle_key c
      same [] = refl
      same (r ∷ c) = ap (λ ks. bottle_key r ∷ ks) (same c)

  pub IsNoted-grows :
      (p q : Progress) (added : List Resolved)
      → q.closure ≡ p.closure ++ added
      → q.tried_soname ≡ p.tried_soname
      → q.installed_ver ≡ p.installed_ver
      → IsNoted p
      → IsNoted q
  IsNoted-grows p q added e tried noted (h, k) =
      rw (e, tried, noted)
        (
          All-map (λ n. IsAccounted-append p.closure added n) p.tried_soname h,
          All-map (λ n. IsBuilt-append p.closure added n) p.installed_ver k,
        )

  pub IsNoted-excused :
      (k : Bytes) (p : Progress)
      → Excused k
      → IsNoted p
      → IsNoted (record p { tried_soname = k ∷ p.tried_soname })
  IsNoted-excused k p free (h, b) = ((inl free, h), b)

  -- What a search says of the name that it was for.
  abbrev pub Says : Bytes → Option Resolved → Type 0
  Says k none = Excused k
  Says k (some r) = Answer k r

  pub IsNoted-note_provider :
      (k : Bytes) (found : Option Resolved) (p : Progress)
      → Says k found
      → IsNoted p
      → IsNoted (note_provider found (record p { tried_soname = k ∷ p.tried_soname }))
  IsNoted-note_provider k none p free (h, b) = ((inl free, h), b)
  IsNoted-note_provider k (some r) p said (h, b) =
      let p1 : Progress = record p { tried_soname = k ∷ p.tried_soname } in
      elim (Bool-cases (mem_bytes (bottle_key r) p.installed_ver)) [
        | inl there ↦
            let same : note_provider (some r) p1 ≡ p1 = ground arith in
            subst IsNoted (sym same) (
              (
                inr (r, said, All-mem (IsBuilt p.closure) (bottle_key r) p.installed_ver b there),
                h,
              ),
              b,
            )
        | inr new ↦
            let p2 : Progress = record p1 {
              closure = p.closure ++ r ∷ [];
              have = r.project ∷ p.have;
              installed_ver = bottle_key r ∷ p.installed_ver;
              changed = true;
            } in
            let same : note_provider (some r) p1 ≡ p2 = ground arith in
            subst IsNoted (sym same) (
              (
                inr (r, said, IsBuilt-new p.closure r),
                All-map (λ n. IsAccounted-append p.closure (r ∷ []) n) p.tried_soname h,
              ),
              (
                IsBuilt-new p.closure r,
                All-map (λ n. IsBuilt-append p.closure (r ∷ []) n) p.installed_ver b,
              ),
            )
      ]

  note_provider-tried :
      (found : Option Resolved) (p : Progress)
      → (note_provider found p).tried_soname ≡ p.tried_soname
  note_provider-tried none p = refl
  note_provider-tried (some r) p = elim (Bool-cases (mem_bytes (bottle_key r) p.installed_ver)) [
    | inl there ↦ ground arith
    | inr new ↦ ground arith
  ]

  -- A name is accounted for once a search for it is noted.
  pub IsAccounted-noted :
      (k : Bytes) (found : Option Resolved) (p : Progress)
      → IsNoted (note_provider found (record p { tried_soname = k ∷ p.tried_soname }))
      → IsAccounted (note_provider found (record p { tried_soname = k ∷ p.tried_soname })).closure k
  IsAccounted-noted k found p (known, _) =
      let p1 : Progress = record p { tried_soname = k ∷ p.tried_soname } in
      let there : mem_bytes k (note_provider found p1).tried_soname ≡ true =
        ap (mem_bytes k) (note_provider-tried found p1) ∙ ground (arith, eq→bytes_eq k k refl) in
      All-mem (IsAccounted (note_provider found p1).closure) k (note_provider found p1).tried_soname
        known there
