-- ===== src/Search.antt =====
-- search.go: ranking the projects of a catalogue against a query.
pub mod Ranked
use Prim.Native.Nat.{Ordering, compare}
use bottle.Common.{
  ℕ, ◌+◌, List, [], ◌∷◌, ◌++◌, ◌&&◌, ◌||◌, not, Bool, true, false, Option, none, some, map,
}
use bottle.Catalog.{CatalogProject}
use bottle.Common.Lists.{is_empty, length}
use bottle.Common.Order.{or_else}
use bottle.Common.SortBy.{sort_by}
use bottle.Common.Tests.{ltb, ◌==◌, if◌then◌else◌}
use bottle.Common.Text.{
  Bytes, codes, bytes_eq, cmp_bytes, cut_prefix, has_prefix, last_cut, trim_space, is_upper,
}

-- `strings.ToLower` of ASCII.
abbrev pub to_lower : Bytes → Bytes
to_lower s = map (λ c. if is_upper c then c + 32 else c) s

-- `strings.Contains(s, p)`.
abbrev pub contains : (p s : Bytes) → Bool
contains p [] = is_empty p
contains p (c ∷ s) = has_prefix p (c ∷ s) || contains p s

abbrev pub min_substring_query : ℕ
min_substring_query = 3

-- The field that matched.
pub data Reason : Type 0 where
  command name summary : Reason

-- The struct `SearchHit`.
pub record SearchHit : Type 0 where
  pub project : Bytes
  pub why : Reason
  pub match : Bytes
  pub rank : ℕ

-- The variable `best`; `none` is a rank of -1.
abbrev pub Best : Type 0
Best = Option SearchHit

-- The function `take`.
abbrev pub take_reason : (project : Bytes) → ℕ → Reason → (match : Bytes) → Best → Best
take_reason project rank why text none =
    some (record { project = project; why = why; match = text; rank = rank })
take_reason project rank why text (some h) =
    if ltb rank h.rank
    then some (record { project = project; why = why; match = text; rank = rank })
    else some h

-- The loop over the commands.
unfoldable pub score_commands : (project q : Bytes) → (provides : List Bytes) → Best → Best
unfolding bytes_eq cut_prefix
score_commands project q [] best = best
score_commands project q (cmd ∷ cmds) best = score_commands project q cmds (
    if bytes_eq cmd q
    then take_reason project 0 command cmd best
    else if has_prefix q cmd
    then take_reason project 2 command cmd best
    else best)

-- What stands behind the last slash.
abbrev pub leaf_of : Bytes → Bytes
leaf_of p = elim (last_cut (codes "/") p) [ none ↦ p | some (front, leaf) ↦ leaf ]

-- The second `switch`.
unfoldable pub score_name : (project q : Bytes) → Best → Best
unfolding bytes_eq cut_prefix last_cut
score_name project q best =
    if bytes_eq (to_lower (leaf_of project)) q
    then take_reason project 1 name project best
    else if ltb (length q) min_substring_query
    then best
    else if contains q (to_lower (leaf_of project))
    then take_reason project 3 name project best
    else if contains q (to_lower project)
    then take_reason project 4 name project best
    else best

-- The `if` on the summary.
unfoldable pub score_summary : (project q text : Bytes) → Best → Best
unfolding cut_prefix
score_summary project q text best =
    if not (is_empty (to_lower text)) && contains q (to_lower text)
    then take_reason project 5 summary text best
    else best

-- `scoreProject`; `none` is false.
unfoldable pub score_project : CatalogProject → (q : Bytes) → Option SearchHit
unfolding score_commands score_name score_summary
score_project p q =
    score_summary p.project q p.summary
      (score_name p.project q (score_commands p.project q p.provides none))

-- The loop of `Search`.
unfoldable pub score_all : List CatalogProject → (q : Bytes) → List SearchHit
unfolding score_project
score_all [] q = []
score_all (p ∷ ps) q = elim (score_project p q) [
  | none ↦ score_all ps q
  | some h ↦ h ∷ score_all ps q
]

-- The order of the hits.
abbrev pub cmp_hits : SearchHit → SearchHit → Ordering
cmp_hits a b = or_else (compare a.rank b.rank) (cmp_bytes a.project b.project)

-- `Catalog.Search`.
unfoldable pub search : List CatalogProject → (query : Bytes) → List SearchHit
unfolding score_all sort_by trim_space
search ps query =
    let q = to_lower (trim_space query) in
    if is_empty q then [] else sort_by cmp_hits (score_all ps q)
