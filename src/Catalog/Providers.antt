-- ===== src/Catalog/Providers.antt =====
-- catalog.go: the projects that `ProvidersOf` and `Lookup` answer with.
use bottle.Common.{List, [], ◌∷◌, ◌≡◌, refl, ap, ◌∙◌, ◌&&◌, Bool, false, arith}
use bottle.Catalog.{CatalogProject, providers, providers_of}
use bottle.Common.Lists.{any, is_empty}
use bottle.Common.Sort.{sort_texts, any-sort_texts}
use bottle.Common.Text.{Bytes, bytes_eq}

abbrev pub has_command : Bytes → CatalogProject → Bool
has_command command p = any (λ cmd. bytes_eq cmd command) p.provides

any-providers :
    (f : Bytes → Bool) (ps : List CatalogProject) (command : Bytes)
    → any f (providers ps command) ≡ any (λ p. f p.project && has_command command p) ps
unfolding providers
any-providers f [] command = refl
any-providers f (p ∷ ps) command = ground (arith, any-providers f ps command)

providers_of_sorted :
    (ps : List CatalogProject) (command : Bytes)
    → is_empty command ≡ false
    → providers_of ps command ≡ sort_texts (providers ps command)
unfolding providers_of
providers_of_sorted ps command h = ground arith

-- For a command that is not empty `ProvidersOf` answers with the names of the projects that have the
-- command, of all of them and of no others: a test finds a name in the answer exactly where it finds
-- one among those projects.
pub any-providers_of :
    (f : Bytes → Bool) (ps : List CatalogProject) (command : Bytes)
    → is_empty command ≡ false
    → any f (providers_of ps command) ≡ any (λ p. f p.project && has_command command p) ps
any-providers_of f ps command h =
    ap (any f) (providers_of_sorted ps command h)
    ∙ any-sort_texts f (providers ps command)
    ∙ any-providers f ps command
