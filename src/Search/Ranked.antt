-- ===== src/Search/Ranked.antt =====
-- search.go: how a project is ranked, and the order of the hits.
use bottle.Common.{
  ℕ, List, [], ◌∷◌, ◌≡◌, inl, inr, refl, sym, subst, ap, ◌∙◌, ◌&&◌, not, Bool, false, Option, none,
  some, arith,
}
use bottle.Catalog.{CatalogProject}
use bottle.Common.Lists.{any, is_empty, length}
use bottle.Common.Order.{IsOrder}
use bottle.Common.Order.Keys.{compare-IsOrder, cmp_bytes-IsOrder, IsOrder-on, IsOrder-or_else}
use bottle.Common.SortBy.{InOrder, InOrder-sort_by, any-sort_by, sort_by}
use bottle.Common.Tests.{Bool-cases, ltb, if◌then◌else◌}
use bottle.Common.Text.{Bytes, bytes_eq, has_prefix, trim_space}
use bottle.Search.{
  SearchHit, Best, Reason, take_reason, score_commands, score_name, score_summary, score_project,
  score_all, leaf_of, contains, to_lower, cmp_hits, search, min_substring_query,
}

abbrev pub rank_in : Best → Option ℕ
rank_in none = none
rank_in (some h) = some h.rank

-- The smaller of a rank and one that may be there.
abbrev pub lower : ℕ → Option ℕ → Option ℕ
lower r none = some r
lower r (some k) = if ltb r k then some r else some k

rank_in-take_reason :
    (project : Bytes) (rank : ℕ) (why : Reason) (text : Bytes) (best : Best)
    → rank_in (take_reason project rank why text best) ≡ lower rank (rank_in best)
rank_in-take_reason project rank why text none = refl
rank_in-take_reason project rank why text (some h) = ground arith

-- A command that is the query, and one that begins with it.
abbrev pub is_command : Bytes → List Bytes → Bool
is_command q cmds = any (λ cmd. bytes_eq cmd q) cmds

abbrev pub begins_command : Bytes → List Bytes → Bool
begins_command q cmds = any (λ cmd. has_prefix q cmd) cmds

abbrev pub command_rank : Bytes → List Bytes → Option ℕ → Option ℕ
command_rank q cmds o =
    if is_command q cmds then lower 0 o else if begins_command q cmds then lower 2 o else o

lower_twice : (r : ℕ) (o : Option ℕ) → lower r (lower r o) ≡ lower r o
lower_twice r none = ground arith
lower_twice r (some k) = ground arith

lower_zero :
    (r : ℕ) (o : Option ℕ) → (lower 0 (lower r o) ≡ lower 0 o) × (lower r (lower 0 o) ≡ lower 0 o)
lower_zero r none = (ground arith, ground arith)
lower_zero r (some k) = (ground arith, ground arith)

rank_in-score_commands :
    (project q : Bytes) (cmds : List Bytes) (best : Best)
    → rank_in (score_commands project q cmds best) ≡ command_rank q cmds (rank_in best)
unfolding score_commands
rank_in-score_commands project q [] best = refl
rank_in-score_commands project q (c ∷ cmds) best = elim (Bool-cases (bytes_eq c q)) [
  | inl same ↦ ground (
    arith,
    rank_in-score_commands project q cmds (take_reason project 0 Reason.command c best),
    rank_in-take_reason project 0 Reason.command c best,
    lower_twice 0 (rank_in best),
    lower_zero 2 (rank_in best),
  )
  | inr other ↦ elim (Bool-cases (has_prefix q c)) [
    | inl begins ↦ ground (
      arith,
      rank_in-score_commands project q cmds (take_reason project 2 Reason.command c best),
      rank_in-take_reason project 2 Reason.command c best,
      lower_twice 2 (rank_in best),
      lower_zero 2 (rank_in best),
    )
    | inr away ↦ ground (arith, rank_in-score_commands project q cmds best)
  ]
]

abbrev is_leaf : Bytes → Bytes → Bool
is_leaf q project = bytes_eq (to_lower (leaf_of project)) q

abbrev is_short : Bytes → Bool
is_short q = ltb (length q) min_substring_query

abbrev in_summary : Bytes → Bytes → Bool
in_summary q text = not (is_empty (to_lower text)) && contains q (to_lower text)

rank_in-score_name :
    (project q : Bytes) (best : Best)
    → rank_in (score_name project q best) ≡ (
        if is_leaf q project
        then lower 1 (rank_in best)
        else if is_short q
        then rank_in best
        else if contains q (to_lower (leaf_of project))
        then lower 3 (rank_in best)
        else if contains q (to_lower project)
        then lower 4 (rank_in best)
        else rank_in best)
unfolding score_name
rank_in-score_name project q best = ground (
  arith,
  rank_in-take_reason project 1 Reason.name project best,
  rank_in-take_reason project 3 Reason.name project best,
  rank_in-take_reason project 4 Reason.name project best,
)

rank_in-score_summary :
    (project q text : Bytes) (best : Best)
    → rank_in (score_summary project q text best)
      ≡ (if in_summary q text then lower 5 (rank_in best) else rank_in best)
unfolding score_summary
rank_in-score_summary project q text best =
    ground (arith, rank_in-take_reason project 5 Reason.summary text best)

-- The table of the ranks.
abbrev pub rank_table : CatalogProject → Bytes → Option ℕ
rank_table p q =
    if is_command q p.provides
    then some 0
    else if is_leaf q p.project
    then some 1
    else if begins_command q p.provides
    then some 2
    else if not (is_short q) && contains q (to_lower (leaf_of p.project))
    then some 3
    else if not (is_short q) && contains q (to_lower p.project)
    then some 4
    else if in_summary q p.summary
    then some 5
    else none

-- `scoreProject` ranks a project by the first line of the table that it meets, and finds it where it
-- meets one: 0 for a command that is the query, 1 where the last segment of the name is, 2 for a
-- command that begins with it, 3 where the last segment holds it and 4 where the name does, if the
-- query has three bytes or more, and 5 where the summary holds it.
pub score_project-rank_table :
    (p : CatalogProject) (q : Bytes) → rank_in (score_project p q) ≡ rank_table p q
unfolding score_project
score_project-rank_table p q =
    let commands = score_commands p.project q p.provides none in
    let named = score_name p.project q commands in
    ground (
      arith,
      rank_in-score_commands p.project q p.provides none,
      rank_in-score_name p.project q commands,
      rank_in-score_summary p.project q p.summary named,
    )

cmp_hits-IsOrder : IsOrder cmp_hits
cmp_hits-IsOrder =
    IsOrder-or_else (IsOrder-on (λ (h : SearchHit). h.rank) compare-IsOrder)
      (IsOrder-on (λ (h : SearchHit). h.project) cmp_bytes-IsOrder)

search_sorted :
    (ps : List CatalogProject) (query : Bytes)
    → is_empty (to_lower (trim_space query)) ≡ false
    → search ps query ≡ sort_by cmp_hits (score_all ps (to_lower (trim_space query)))
unfolding search
search_sorted ps query h = ground arith

-- For a query that is not blank `Search` answers with the hits of the projects, no more and no less,
-- by rank and where two ranks tie by name: no hit stands behind one that it comes before.
pub search-InOrder :
    (ps : List CatalogProject) (query : Bytes) (p : SearchHit → Bool)
    → is_empty (to_lower (trim_space query)) ≡ false
    → InOrder cmp_hits (search ps query)
      × (any p (search ps query) ≡ any p (score_all ps (to_lower (trim_space query))))
search-InOrder ps query p h =
    let hits = score_all ps (to_lower (trim_space query)) in
    let same = search_sorted ps query h in
    (
      subst (InOrder cmp_hits) (sym same) (InOrder-sort_by cmp_hits cmp_hits-IsOrder hits),
      ap (any p) same ∙ any-sort_by cmp_hits p hits,
    )
