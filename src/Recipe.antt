-- ===== src/Recipe.antt =====
-- pkgx.go: what a recipe says of a package, on one platform.
pub mod Merged
pub mod Reduced
use bottle.Common.{ℕ, List, [], ◌∷◌, ◌++◌, ◌&&◌, ◌||◌, not, Bool, true, false, Option, none, some}
use bottle.Common.Dict.{set}
use bottle.Common.Lists.{any}
use bottle.Common.Result.{Result, ok, err, ◌>>=◌}
use bottle.Common.Tests.{if◌then◌else◌}
use bottle.Common.Text.{Bytes, codes, bytes_eq, has_prefix}

-- A value of a recipe, of the types that are told apart; `scalar` is a value of another type, with
-- the text that `fmt.Sprint` gives it. The keys of a mapping are distinct, in the order of a range
-- over it.
mutual
  pub data Node : Type 0 where
    nothing : Node
    text : Bytes → Node
    scalar : Bytes → Node
    sequence : Nodes → Node
    mapping : Fields → Node

  pub data Nodes : Type 0 where
    no_nodes : Nodes
    more_nodes : Node → Nodes → Nodes

  pub data Fields : Type 0 where
    no_fields : Fields
    more_fields : Bytes → Node → Fields → Fields

-- `m[k]`, with whether it is there.
unfoldable pub find : Bytes → Fields → Option Node
find k no_fields = none
find k (more_fields j v m) = let later = find k m in if bytes_eq k j then some v else later

-- `m[k] = v`
unfoldable pub put : Bytes → Node → Fields → Fields
put k v no_fields = more_fields k v no_fields
put k v (more_fields j w m) =
    let later = put k v m in if bytes_eq k j then more_fields j v m else more_fields j w later

-- `x.(map[string]any)`
abbrev pub as_mapping : Option Node → Option Fields
as_mapping none = none
as_mapping (some nothing) = none
as_mapping (some (text s)) = none
as_mapping (some (scalar s)) = none
as_mapping (some (sequence ns)) = none
as_mapping (some (mapping m)) = some m

-- `mergeRecipe`, with `out` as what is merged so far: the loop over `over`.
unfoldable pub merge_into : (out over : Fields) → Fields
merge_into out no_fields = out
merge_into out (more_fields k nothing m) = merge_into (put k nothing out) m
merge_into out (more_fields k (text s) m) = merge_into (put k (text s) out) m
merge_into out (more_fields k (scalar s) m) = merge_into (put k (scalar s) out) m
merge_into out (more_fields k (sequence ns) m) = merge_into (put k (sequence ns) out) m
merge_into out (more_fields k (mapping om) m) = elim (as_mapping (find k out)) [
  | none ↦ merge_into (put k (mapping om) out) m
  | some bm ↦ merge_into (put k (mapping (merge_into bm om)) out) m
]

-- `mergeRecipe`.
unfoldable pub merge_recipe : (base over : Fields) → Fields
merge_recipe base over = merge_into base over

-- The end of `recipeDoc`, on the two sides that were read; `none` is its error.
unfoldable pub recipe_doc : (base over : Option Fields) → Option Fields
recipe_doc (some base) (some over) = some (merge_recipe base over)
recipe_doc none (some over) = some over
recipe_doc (some base) none = some base
recipe_doc none none = none

-- `mapField`: an error carries the path of the field that is no mapping.
unfoldable pub map_field : Fields → (seen path : List Bytes) → Result (List Bytes) Fields
map_field m seen [] = ok m
map_field m seen (k ∷ path) = elim (find k m) [
  | none ↦ ok no_fields
  | some nothing ↦ ok no_fields
  | some (mapping sub) ↦ map_field sub (seen ++ k ∷ []) path
  | some _ ↦ err (seen ++ k ∷ [])
]

-- `constraintText`.
abbrev pub constraint_text : Node → Bytes
constraint_text nothing = []
constraint_text (text s) = s
constraint_text (scalar s) = s
constraint_text (sequence ns) = []
constraint_text (mapping m) = []

abbrev pub platform_keys : List Bytes
platform_keys =
    codes "linux"
    ∷ codes "darwin"
    ∷ codes "windows"
    ∷ codes "js"
    ∷ codes "wasip1"
    ∷ codes "freebsd"
    ∷ codes "openbsd"
    ∷ codes "netbsd"
    ∷ codes "dragonfly"
    ∷ []

-- `isPlatformKey`.
unfoldable pub is_platform_key : Bytes → Bool
is_platform_key k = any (λ p. bytes_eq k p || has_prefix (p ++ codes "/") k) platform_keys

-- The loop of `reduceDeps` over the projects at the top.
unfoldable pub take_top : Fields → List (Bytes × Bytes) → List (Bytes × Bytes)
take_top no_fields out = out
take_top (more_fields k v m) out = elim (is_platform_key k) [
  | true ↦ take_top m out
  | false ↦ take_top m (set k (constraint_text v) out)
]

-- The loop over one platform block.
unfoldable pub take_block : Fields → List (Bytes × Bytes) → List (Bytes × Bytes)
take_block no_fields out = out
take_block (more_fields k v m) out = take_block m (set k (constraint_text v) out)

abbrev pub block_of : Bytes → Fields → Fields
block_of key m = elim (as_mapping (find key m)) [ none ↦ no_fields | some sub ↦ sub ]

-- `reduceDeps`.
unfoldable pub reduce_deps : Fields → (osn arch : Bytes) → List (Bytes × Bytes)
reduce_deps m osn arch =
    take_block (block_of (osn ++ (codes "/" ++ arch)) m)
      (take_block (block_of osn m) (take_top m []))

-- `stringList`.
unfoldable pub string_list : Node → Option (List Bytes)
string_list nothing = none
string_list (text s) = none
string_list (scalar s) = none
string_list (mapping m) = none
string_list (sequence no_nodes) = some []
string_list (sequence (more_nodes (text s) ns)) = elim (string_list (sequence ns)) [
  | none ↦ none
  | some ss ↦ some (s ∷ ss)
]
string_list (sequence (more_nodes nothing ns)) = none
string_list (sequence (more_nodes (scalar s) ns)) = none
string_list (sequence (more_nodes (sequence a) ns)) = none
string_list (sequence (more_nodes (mapping m) ns)) = none

abbrev pub or_nothing : Option Node → Node
or_nothing none = nothing
or_nothing (some v) = v

abbrev pub or_empty : Option (List Bytes) → List Bytes
or_empty none = []
or_empty (some ss) = ss

-- `decodeProvides`, with the operating system of the machine.
unfoldable pub decode_provides : (own_os : Bytes) → Node → List Bytes
decode_provides own_os v = elim (string_list v) [
  | some list ↦ list
  | none ↦ elim (as_mapping (some v)) [
    | none ↦ []
    | some m ↦ or_empty (string_list (or_nothing (find own_os m)))
  ]
]

-- `CompanionsFor`, on the recipe.
unfoldable pub companions_for :
    Fields → (osn arch : Bytes) → Result (List Bytes) (List (Bytes × Bytes))
companions_for doc osn arch = elim (map_field doc [] (codes "companions" ∷ [])) [
  | err e ↦ err e
  | ok comp ↦ ok (reduce_deps comp osn arch)
]

-- `FetchMetaFor`, on the recipe: the dependencies and the programs.
unfoldable pub fetch_meta_for :
    Fields → (own_os osn arch : Bytes) → Result (List Bytes) (List (Bytes × Bytes) × List Bytes)
fetch_meta_for doc own_os osn arch = elim (map_field doc [] (codes "dependencies" ∷ [])) [
  | err e ↦ err e
  | ok d ↦
      ok (reduce_deps d osn arch, decode_provides own_os (or_nothing (find (codes "provides") doc)))
]
