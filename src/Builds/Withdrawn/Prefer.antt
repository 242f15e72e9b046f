-- ===== src/Builds/Withdrawn/Prefer.antt =====
-- withdrawn.go: which entry withdraws a build, and what setting aside leaves.
use bottle.Common.{List, [], ◌∷◌, ◌≡◌, inl, inr, refl, ◌&&◌, not, Bool, Option, none, some, arith}
use bottle.Common.Lists.{is_empty, keep_if, any}
use bottle.Common.Tests.{Bool-cases, if◌then◌else◌}
use bottle.Common.Text.{Bytes, bytes_eq}
use bottle.Builds.{Build}
use bottle.Builds.Withdrawn.{
  Withdrawal, or_keep, find_withdrawal, withdrawal_of, is_withdrawn, split_withdrawn,
  prefer_not_withdrawn,
}

-- The first entry that passes a test.
abbrev pub first_entry : (Withdrawal → Bool) → List Withdrawal → Option Withdrawal
first_entry p [] = none
first_entry p (w ∷ ws) = if p w then some w else first_entry p ws

-- An entry for this build alone, and one for every build of the version.
abbrev pub names_build : Bytes → Bytes → Withdrawal → Bool
names_build version hash w =
    bytes_eq w.version version && (not (is_empty w.hash) && bytes_eq w.hash hash)

abbrev pub names_version : Bytes → Withdrawal → Bool
names_version version w = bytes_eq w.version version && is_empty w.hash

abbrev pub or_other : Option Withdrawal → Option Withdrawal → Option Withdrawal
or_other (some w) o = some w
or_other none o = o

find_withdrawal-exact :
    (version hash : Bytes) (wide : Option Withdrawal) (ws : List Withdrawal)
    → find_withdrawal version hash wide ws
      ≡ or_other
          (first_entry (names_build version hash) ws)
          (or_other wide (first_entry (names_version version) ws))
unfolding find_withdrawal
find_withdrawal-exact version hash wide [] = ground arith
find_withdrawal-exact version hash wide (w ∷ ws) = ground (
  arith,
  find_withdrawal-exact version hash wide ws,
  find_withdrawal-exact version hash (or_keep wide w) ws,
)

-- `WithdrawalOf` answers with the first entry that names the build by its hash, whatever stands
-- before it; where there is none, with the first that withdraws the whole version; and with nothing
-- only where there is neither.
pub withdrawal_of-exact :
    (ws : List Withdrawal) (version hash : Bytes)
    → withdrawal_of ws version hash
      ≡ or_other
          (first_entry (names_build version hash) ws)
          (first_entry (names_version version) ws)
unfolding withdrawal_of
withdrawal_of-exact ws version hash = find_withdrawal-exact version hash none ws

abbrev pub stands : List Withdrawal → Build → Bool
stands ws b = not (is_withdrawn ws b)

split_withdrawn-keep_if :
    (ws : List Withdrawal) (bs : List Build)
    → split_withdrawn ws bs ≡ (keep_if (stands ws) bs, keep_if (is_withdrawn ws) bs)
unfolding split_withdrawn
split_withdrawn-keep_if ws [] = refl
split_withdrawn-keep_if ws (b ∷ bs) =
    let rest = split_withdrawn-keep_if ws bs in
    elim (Bool-cases (is_withdrawn ws b)) [ inl out ↦ ground arith | inr fine ↦ ground arith ]

is_empty-keep_if : (p : Build → Bool) (bs : List Build) → is_empty (keep_if p bs) ≡ not (any p bs)
is_empty-keep_if p [] = refl
is_empty-keep_if p (b ∷ bs) = ground (arith, is_empty-keep_if p bs)

-- `PreferNotWithdrawn` keeps the builds that are not withdrawn and sets the withdrawn ones aside, both
-- in the order in which they came; where all are withdrawn it keeps all of them and sets none aside.
pub prefer_not_withdrawn-exact :
    (ws : List Withdrawal) (builds : List Build)
    → prefer_not_withdrawn ws builds ≡ (
        if any (stands ws) builds
        then (keep_if (stands ws) builds, keep_if (is_withdrawn ws) builds)
        else (builds, []))
unfolding prefer_not_withdrawn
prefer_not_withdrawn-exact ws builds =
    rw (split_withdrawn-keep_if ws builds) (ground (arith, is_empty-keep_if (stands ws) builds))
