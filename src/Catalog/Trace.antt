-- ===== src/Catalog/Trace.antt =====
-- catalog.go: the path that `WhyDepends` reads off the projects that it came by.
use Prim.Native.Nat.{zero, suc}
use bottle.Common.{
  ℕ, ◌+◌, ◌≤◌, List, [], ◌∷◌, ◌≡◌, ◌≢◌, inl, inr, refl, sym, ap, ◌∙◌, subst, true, false, some,
  arith,
}
use bottle.Common.Dict.{mem_bytes, keys, get_or}
use bottle.Common.Lists.{length}
use bottle.Common.Tests.{Bool-cases}
use bottle.Common.Text.{Bytes, bytes_eq, bytes_eq→eq}
use bottle.Catalog.{path_back}

module _ (deps : Bytes → List Bytes) where
  -- Each project of the list is a dependency of the one before it.
  abbrev pub IsChain : List Bytes → Type 0
  IsChain [] = Unit
  IsChain (a ∷ []) = Unit
  IsChain (a ∷ b ∷ path) = (mem_bytes b (deps a) ≡ true) × IsChain (b ∷ path)

  -- A chain from one project to another.
  abbrev pub IsPath : Bytes → Bytes → List Bytes → Type 0
  IsPath from to [] = ⊥
  IsPath from to (a ∷ []) = (a ≡ from) × (a ≡ to)
  IsPath from to (a ∷ b ∷ path) =
      (a ≡ from) × (mem_bytes b (deps a) ≡ true) × IsPath b to (b ∷ path)

  -- The projects that the search came by, the newest first, each with the project before it: that one
  -- was there already, the newer is one of its dependencies, and the oldest is the start.
  abbrev pub IsTrace : Bytes → List (Bytes × Bytes) → Type 0
  IsTrace from [] = ⊥
  IsTrace from ((d, p) ∷ []) = (d ≡ from) × (p ≡ []) × (d ≢ [])
  IsTrace from ((d, p) ∷ e ∷ prev) =
      (mem_bytes p (keys (e ∷ prev)) ≡ true)
      × (mem_bytes d (keys (e ∷ prev)) ≡ false)
      × (d ≢ [])
      × (mem_bytes d (deps p) ≡ true)
      × IsTrace from (e ∷ prev)

  -- A path can be put behind a project.
  abbrev pub IsBehind : Bytes → Bytes → List Bytes → Type 0
  IsBehind n to [] = n ≡ to
  IsBehind n to (b ∷ path) = (mem_bytes b (deps n) ≡ true) × IsPath b to (b ∷ path)

  IsBehind-IsPath : (n to : Bytes) (path : List Bytes) → IsBehind n to path → IsPath n to (n ∷ path)
  IsBehind-IsPath n to [] h = (refl, h)
  IsBehind-IsPath n to (b ∷ path) (h, hs) = (refl, h, hs)

  path_back_step :
      (prev : List (Bytes × Bytes)) (fuel : ℕ) (n q : Bytes) (path : List Bytes)
      → n ≢ []
      → get_or n prev [] ≡ q
      → path_back prev (suc fuel) n path ≡ path_back prev fuel q (n ∷ path)
  unfolding path_back
  path_back_step prev fuel [] q path filled e = absurd (filled refl)
  path_back_step prev fuel (c ∷ n) q path filled e =
      ap (λ r. path_back prev fuel r ((c ∷ n) ∷ path)) e

  path_back_end :
      (prev : List (Bytes × Bytes)) (fuel : ℕ) (path : List Bytes)
      → path_back prev fuel [] path ≡ some path
  unfolding path_back
  path_back_end prev zero path = refl
  path_back_end prev (suc fuel) path = refl

  get_or_here :
      (n d p : Bytes) (prev : List (Bytes × Bytes))
      → bytes_eq n d ≡ true
      → get_or n ((d, p) ∷ prev) [] ≡ p
  unfolding get_or
  get_or_here n d p prev h = ground arith

  get_or_later :
      (n d p : Bytes) (prev : List (Bytes × Bytes))
      → bytes_eq n d ≡ false
      → get_or n ((d, p) ∷ prev) [] ≡ get_or n prev []
  unfolding get_or
  get_or_later n d p prev h = ground arith

  -- The lookups of `part` agree with those of `prev`.
  abbrev Agrees : List (Bytes × Bytes) → List (Bytes × Bytes) → Type 0
  Agrees prev part =
      (m : Bytes) → mem_bytes m (keys part) ≡ true → get_or m prev [] ≡ get_or m part []

  mem_other :
      (m d : Bytes) (ks : List Bytes)
      → mem_bytes m ks ≡ true
      → mem_bytes d ks ≡ false
      → bytes_eq m d ≡ false
  mem_other m d ks h k = elim (Bool-cases (bytes_eq m d)) [
    | inr miss ↦ miss
    | inl hit ↦ let same = ap (λ t. mem_bytes t ks) (bytes_eq→eq m d hit) in absurd cc
  ]

  Agrees-later :
      (prev part : List (Bytes × Bytes)) (d p : Bytes)
      → mem_bytes d (keys part) ≡ false
      → Agrees prev ((d, p) ∷ part)
      → Agrees prev part
  Agrees-later prev part d p new agrees m h =
      let other = mem_other m d (keys part) h new in
      agrees m (ground arith) ∙ get_or_later m d p part other

  -- From a project of the trace the path is read back to the start.
  read_back :
      (from to : Bytes) (prev part : List (Bytes × Bytes)) (n : Bytes) (path : List Bytes)
      (fuel : ℕ)
      → IsTrace from part
      → Agrees prev part
      → mem_bytes n (keys part) ≡ true
      → IsBehind n to path
      → length part + 1 ≤ fuel
      → (way : List Bytes) × (path_back prev fuel n path ≡ some way) × IsPath from to way
  read_back from to prev [] n path fuel trace agrees inside behind enough = absurd trace
  read_back from to prev (e ∷ part) n path zero trace agrees inside behind enough =
      absurd (omega arith)
  read_back from to prev ((d, p) ∷ []) n path (suc fuel) (first, root, filled) agrees inside behind
        enough =
      let hit : bytes_eq n d ≡ true = ground arith in
      let same : n ≡ d = bytes_eq→eq n d hit in
      let up : get_or n prev [] ≡ [] = agrees n inside ∙ get_or_here n d p [] hit ∙ root in
      (
        n ∷ path,
        path_back_step prev fuel n [] path (subst (λ t. t ≢ []) (sym same) filled) up
            ∙ path_back_end prev fuel (n ∷ path),
        subst (λ t. IsPath t to (n ∷ path)) (same ∙ first) (IsBehind-IsPath n to path behind),
      )
  read_back from to prev ((d, p) ∷ e ∷ part) n path (suc fuel) (known, new, filled, edge, trace)
        agrees inside behind enough =
      let rest = Agrees-later prev (e ∷ part) d p new agrees in
      elim (Bool-cases (bytes_eq n d)) [
        | inr miss ↦
            read_back from to prev (e ∷ part) n path (suc fuel) trace rest (ground arith) behind
              (omega arith)
        | inl hit ↦
            let same : n ≡ d = bytes_eq→eq n d hit in
            let up : get_or n prev [] ≡ p = agrees n inside ∙ get_or_here n d p (e ∷ part) hit in
            let link : mem_bytes n (deps p) ≡ true =
              subst (λ t. mem_bytes t (deps p) ≡ true) (sym same) edge in
            let (way, read, good) =
              read_back from to prev (e ∷ part) p (n ∷ path) fuel trace rest known
                (link, IsBehind-IsPath n to path behind) (omega arith) in
            (
              way,
              path_back_step prev fuel n p path (subst (λ t. t ≢ []) (sym same) filled) up ∙ read,
              good,
            )
      ]

  -- The path that is read off a trace leads from its start to the project that it is read from.
  pub path_back-IsPath :
      (from to : Bytes) (prev : List (Bytes × Bytes))
      → IsTrace from prev
      → mem_bytes to (keys prev) ≡ true
      → (way : List Bytes) × (path_back prev (length prev + 1) to [] ≡ some way)
        × IsPath from to way
  path_back-IsPath from to prev trace inside =
      read_back from to prev prev to [] (length prev + 1) trace (λ m h. refl) inside refl
        (omega arith)
