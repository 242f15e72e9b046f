-- ===== src/Builds/Withdrawn.antt =====
-- withdrawn.go: builds that were withdrawn, and how a choice sets them aside.
pub mod Prefer
use bottle.Common.{ℕ, List, [], ◌∷◌, ◌++◌, ◌&&◌, ◌||◌, not, Bool, true, false, Option, none, some}
use bottle.Common.Lists.{is_empty, length, take}
use bottle.Common.Tests.{leb, if◌then◌else◌}
use bottle.Common.Text.{Bytes, codes, bytes_eq, join}
use bottle.Builds.{Build, hash_of_build}

-- `shortHashPrefix`, in distinguish.go.
abbrev pub short_hash_prefix : Bytes → Bytes
short_hash_prefix h = if leb (length h) 6 then h else take 6 h

-- An arrow between spaces, in UTF-8.
abbrev arrow : Bytes
arrow = 32 ∷ 226 ∷ 134 ∷ 146 ∷ 32 ∷ []

-- The struct `Withdrawal`.
pub record Withdrawal : Type 0 where
  pub version : Bytes
  pub hash : Bytes
  pub because : Bytes
  pub superseded_by : Bytes

abbrev pub or_keep : Option Withdrawal → Withdrawal → Option Withdrawal
or_keep none w = some w
or_keep (some v) w = some v

-- The loop of `WithdrawalOf`; `wide` is `wide` with `haveWide`.
unfoldable pub find_withdrawal :
    Bytes → Bytes → Option Withdrawal → List Withdrawal → Option Withdrawal
unfolding bytes_eq
find_withdrawal version hash wide [] = wide
find_withdrawal version hash wide (w ∷ ws) =
    let later = find_withdrawal version hash wide ws in
    if not (bytes_eq w.version version)
    then later
    else if is_empty w.hash
    then find_withdrawal version hash (or_keep wide w) ws
    else if bytes_eq w.hash hash
    then some w
    else later

-- `WithdrawalOf`, of the entries of one project.
unfoldable pub withdrawal_of : List Withdrawal → Bytes → Bytes → Option Withdrawal
unfolding find_withdrawal
withdrawal_of ws version hash = find_withdrawal version hash none ws

abbrev pub is_withdrawn : List Withdrawal → Build → Bool
is_withdrawn ws b = elim (withdrawal_of ws b.version.raw (hash_of_build b)) [
  | none ↦ false
  | some w ↦ true
]

-- The loop of `PreferNotWithdrawn`: `keep` and `setAside`.
unfoldable pub split_withdrawn : List Withdrawal → List Build → List Build × List Build
unfolding withdrawal_of
split_withdrawn ws [] = ([], [])
split_withdrawn ws (b ∷ bs) =
    let (keep, aside) = split_withdrawn ws bs in
    if is_withdrawn ws b then (keep, b ∷ aside) else (b ∷ keep, aside)

-- `PreferNotWithdrawn`.
unfoldable pub prefer_not_withdrawn : List Withdrawal → List Build → List Build × List Build
unfolding split_withdrawn
prefer_not_withdrawn ws builds =
    let (keep, aside) = split_withdrawn ws builds in
    if is_empty keep then (builds, []) else (keep, aside)

-- `Withdrawal.String`.
unfoldable pub withdrawal_text : Withdrawal → Bytes
withdrawal_text w =
    if is_empty w.because
    then codes "withdrawn"
    else (let s = codes "withdrawn: " ++ w.because in
        if is_empty w.superseded_by then s else s ++ (arrow ++ short_hash_prefix w.superseded_by))

-- The lines of `WithdrawnNote`.
unfoldable pub withdrawn_lines : List Withdrawal → List Build → List Bytes
unfolding withdrawal_of withdrawal_text
withdrawn_lines ws [] = []
withdrawn_lines ws (b ∷ bs) =
    let rest = withdrawn_lines ws bs in
    elim (withdrawal_of ws b.version.raw (hash_of_build b)) [
      | none ↦ rest
      | some w ↦
          (codes "  "
            ++ ((if is_empty (hash_of_build b) then codes "(none)" else hash_of_build b)
                ++ (codes ": " ++ withdrawal_text w)))
          ∷ rest
    ]
