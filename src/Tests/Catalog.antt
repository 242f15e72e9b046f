-- ===== src/Tests/Catalog.antt =====
-- A small catalogue, and what it answers.
use bottle.Common.{List, [], ◌∷◌, ◌≡◌, refl, Bool}
use bottle.Common.Dict.{get_or}
use bottle.Common.Sort.{sort_texts}
use bottle.Common.Text.{codes, bytes_eq}
use bottle.Catalog.{
  CatalogProject, no_project, all_deps, deps_at, index, why_depends, because, search_back,
  scan_kids, path_back,
}
use bottle.Catalog.Links.{Answers, why_depends-Answers}
use bottle.Search.{SearchHit, score_project}
use bottle.Search.Ranked.{rank_in, rank_table, score_project-rank_table}

abbrev curl : CatalogProject
curl = record no_project {
  project = codes "curl.se";
  deps = codes "zlib.net" ∷ codes "openssl.org" ∷ [];
  provides = codes "curl" ∷ [];
}

abbrev openssl : CatalogProject
openssl = record no_project {
  project = codes "openssl.org";
  deps = codes "perl.org" ∷ [];
  provides = codes "openssl" ∷ [];
}

abbrev projects : List CatalogProject
projects = curl ∷ openssl ∷ []

why_depends-Answers_example :
    Answers
      (deps_at (index projects))
      (codes "curl.se")
      (codes "perl.org")
      (why_depends projects (codes "curl.se") (codes "perl.org"))
unfolding bytes_eq all_deps
why_depends-Answers_example = why_depends-Answers projects (codes "curl.se") (codes "perl.org") refl

through_openssl :
    why_depends projects (codes "curl.se") (codes "perl.org")
    ≡ because (codes "curl.se" ∷ codes "openssl.org" ∷ codes "perl.org" ∷ [])
unfolding why_depends bytes_eq search_back all_deps scan_kids sort_texts get_or index path_back
through_openssl = refl

score_project-rank_table_example :
    rank_in (score_project openssl (codes "ssl")) ≡ rank_table openssl (codes "ssl")
score_project-rank_table_example = score_project-rank_table openssl (codes "ssl")

abbrev is_curl : SearchHit → Bool
is_curl h = bytes_eq h.project (codes "curl.se")
