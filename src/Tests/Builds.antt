-- ===== src/Tests/Builds.antt =====
-- Builds of one version: references to them, withdrawn ones and their order.
use bottle.Common.{arith, List, [], ◌∷◌, ◌++◌, ◌≡◌, refl}
use bottle.Common.Text.{Bytes, codes, bytes_eq, contains_byte, cut_prefix}
use bottle.Builds.{Build, new_build, parse_build_ref, match_build, hash_of_build}
use bottle.Builds.Refs.{IsTaken, parse_build_ref-exact, match_build_unique}
use bottle.Builds.Withdrawn.{Withdrawal, withdrawal_of, prefer_not_withdrawn}
use bottle.Builds.Withdrawn.Prefer.{
  withdrawal_of-exact, first_entry, names_build, names_version, or_other,
}
use bottle.Version.{parse_ver}

abbrev build : Bytes → Build
build h = new_build (record (parse_ver (codes "1.3.2")) { variant = h })

abbrev old_build : Build
old_build = build (codes "3c7ee5kq")

abbrev new_one : Build
new_one = build (codes "nxf2b6i7")

abbrev two_builds : List Build
two_builds = old_build ∷ new_one ∷ []

abbrev entries : List Withdrawal
entries =
    record {
      version = codes "1.3.2";
      hash = codes "3c7ee5kq";
      because = codes "broken";
      superseded_by = [];
    }
    ∷ []

parse_build_ref-exact_example :
    (parse_build_ref (codes "zlib.net@1.3.2" ++ b'/' ∷ codes "3c7ee5kq")
      ≡ (codes "zlib.net@1.3.2", codes "3c7ee5kq"))
    × IsTaken (codes "github.com/zlib") (parse_build_ref (codes "github.com/zlib"))
unfolding contains_byte
parse_build_ref-exact_example =
    parse_build_ref-exact (codes "github.com/zlib") (codes "zlib.net@1.3.2") (codes "3c7ee5kq")
      (refl, omega arith, omega arith, refl)

match_build_unique_example : hash_of_build new_one ≡ hash_of_build new_one
unfolding match_build cut_prefix bytes_eq parse_ver
match_build_unique_example =
    match_build_unique two_builds (codes "nx") new_one new_one refl refl refl

withdrawal_of-exact_example :
    withdrawal_of entries (codes "1.3.2") (codes "3c7ee5kq")
    ≡ or_other
        (first_entry (names_build (codes "1.3.2") (codes "3c7ee5kq")) entries)
        (first_entry (names_version (codes "1.3.2")) entries)
withdrawal_of-exact_example = withdrawal_of-exact entries (codes "1.3.2") (codes "3c7ee5kq")

kept_build : prefer_not_withdrawn entries two_builds ≡ (new_one ∷ [], old_build ∷ [])
unfolding prefer_not_withdrawn parse_ver
kept_build = refl
