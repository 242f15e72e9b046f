-- ===== src/Sonames/Known.antt =====
-- closure.go: a project that a soname is mapped to is among the providers.
use bottle.Common.{List, [], ◌∷◌, ◌≡◌, refl, sym, ap, ◌∙◌, ◌||◌, true, false, arith}
use bottle.Common.Dict.{mem_bytes, mem-append, get_or}
use bottle.Common.Lists.{is_empty, any}
use bottle.Common.Sort.{sort_texts, any-sort_texts}
use bottle.Common.Text.{Bytes, bytes_eq, bytes_eq→eq, eq→bytes_eq}
use bottle.Sonames.{
  soname_project, soname_prefix_project, soname_base, by_prefix, project_for_soname, project_in,
  providers_in, add_project, projects_of, soname_providers,
}

mem-any : (p : Bytes) (ts : List Bytes) → mem_bytes p ts ≡ any (bytes_eq p) ts
mem-any p [] = refl
mem-any p (t ∷ ts) = ap (λ b. bytes_eq p t || b) (mem-any p ts)

mem-sort_texts : (p : Bytes) (ts : List Bytes) → mem_bytes p (sort_texts ts) ≡ mem_bytes p ts
mem-sort_texts p ts =
    mem-any p (sort_texts ts) ∙ (any-sort_texts (bytes_eq p) ts ∙ sym (mem-any p ts))

mem-add_project :
    (p q : Bytes) (seen : List Bytes)
    → mem_bytes p (add_project seen q) ≡ (mem_bytes p seen || bytes_eq p q)
mem-add_project p q seen = ground (arith, mem-append p seen (q ∷ []), bytes_eq→eq p q)

-- The values of a map.
abbrev values_of : List (Bytes × Bytes) → List Bytes
values_of [] = []
values_of ((k, p) ∷ m) = p ∷ values_of m

mem-projects_of :
    (p : Bytes) (seen : List Bytes) (m : List (Bytes × Bytes))
    → mem_bytes p (projects_of seen m) ≡ (mem_bytes p seen || mem_bytes p (values_of m))
mem-projects_of p seen [] = ground arith
mem-projects_of p seen ((k, q) ∷ m) =
    ground (arith, mem-projects_of p (add_project seen q) m, mem-add_project p q seen)

-- What a map answers is one of its values, or nothing.
mem-get_or :
    (k : Bytes) (m : List (Bytes × Bytes))
    → (is_empty (get_or k m []) || mem_bytes (get_or k m []) (values_of m)) ≡ true
unfolding get_or
mem-get_or k [] = refl
mem-get_or k ((j, p) ∷ m) = ground (arith, mem-get_or k m, eq→bytes_eq p p refl)

mem-by_prefix :
    (s : Bytes) (m : List (Bytes × Bytes))
    → (is_empty (by_prefix s m) || mem_bytes (by_prefix s m) (values_of m)) ≡ true
unfolding by_prefix
mem-by_prefix s [] = refl
mem-by_prefix s ((prefix, p) ∷ m) = ground (arith, mem-by_prefix s m, eq→bytes_eq p p refl)

mem-providers_in :
    (p : Bytes) (exact prefixes : List (Bytes × Bytes))
    → mem_bytes p (providers_in exact prefixes)
      ≡ (mem_bytes p (values_of exact) || mem_bytes p (values_of prefixes))
unfolding providers_in
mem-providers_in p exact prefixes =
    mem-sort_texts p (projects_of (projects_of [] exact) prefixes)
    ∙ (mem-projects_of p (projects_of [] exact) prefixes
        ∙ ap (λ b. b || mem_bytes p (values_of prefixes)) (mem-projects_of p [] exact))

mem-project_in :
    (exact prefixes : List (Bytes × Bytes)) (soname : Bytes)
    → is_empty (project_in exact prefixes soname) ≡ false
    → mem_bytes (project_in exact prefixes soname) (providers_in exact prefixes) ≡ true
unfolding project_in
mem-project_in exact prefixes soname h = ground (
  arith,
  mem-providers_in (project_in exact prefixes soname) exact prefixes,
  mem-get_or (soname_base soname) exact,
  mem-by_prefix soname prefixes,
)

-- A project that a soname is mapped to is one that `soname_providers` lists.
pub mem-project_for_soname :
    (soname : Bytes)
    → is_empty (project_for_soname soname) ≡ false
    → mem_bytes (project_for_soname soname) soname_providers ≡ true
unfolding project_for_soname soname_providers
mem-project_for_soname soname h = mem-project_in soname_project soname_prefix_project soname h
