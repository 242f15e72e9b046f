-- ===== src/Tests/Sources.antt =====
-- A project that the registry does not carry, and that upstream lists.
use bottle.Common.{[], ◌≡◌, refl, true, false, some}
use bottle.Common.Result.{ok, err}
use bottle.Common.Text.{codes}
use bottle.Fetch.{answer}
use bottle.Sources.{Places, RegistryError, repo_absent, versions_for_sourced}
use bottle.Sources.Asked.{Tells, versions_for_sourced-Tells}

abbrev denied : RegistryError
denied = record { status = some 403; is_errdef_not_found = false; message = [] }

abbrev places : Places
places = record {
  dist_base = codes "oci://ghcr.io/packages";
  upstream_dist = codes "https://dist.example";
  glibc_flavor = [];
  oci_token = [];
  oci_username = [];
  oci_password = [];
  tags = err denied;
  get = λ url n. answer 200 (ok (codes "1.2"));
}

anonymous_denial : repo_absent places denied ≡ true
unfolding repo_absent
anonymous_denial = refl

versions_for_sourced-Tells_example :
    Tells places
      (codes "zlib.net")
      (codes "linux")
      (codes "s390x")
      (versions_for_sourced places (codes "zlib.net") (codes "linux") (codes "s390x"))
versions_for_sourced-Tells_example =
    versions_for_sourced-Tells places (codes "zlib.net") (codes "linux") (codes "s390x")
