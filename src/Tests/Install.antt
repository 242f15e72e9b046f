-- ===== src/Tests/Install.antt =====
-- A signed bottle of one file that is installed into an empty store.
use bottle.Common.{List, [], ◌∷◌, ◌⊎◌, refl, Bool, true, false, none, some}
use bottle.Common.Int.{pos}
use bottle.Common.Result.{Result}
use bottle.Common.Text.{Bytes, codes, trim_space, cut_prefix, bytes_eq}
use bottle.Extract.{entry}
use bottle.Host.{Host}
use bottle.Install.{Bottle, Remote, InstallError}
use bottle.Install.Placed.{install_for}
use bottle.Install.Verified.{IsUntouched, IsUnpacked, install_for-IsVouchedFor}
use bottle.Resolve.{Resolved}
use bottle.Tests.Extract.{file, small_os}
use bottle.Tests.Trust.{toy, two_keys, attached}

-- The state is the list of the paths that were written, and only they exist.
abbrev pub small_host : Host (List Bytes)
small_host = record {
  os = small_os;
  exists = λ p s. false;
  is_dir = λ p s. false;
  read_dir = λ p s. none;
  rename = λ from to s. (to ∷ s, true);
  mkdir_temp = λ dir pattern s. (s, some (codes "srv/.tmp-1"));
  create_temp = λ dir pattern s. (s, some (codes "srv/.mark-1"));
  remove_all = λ p s. s;
  digest = λ b. b;
}

abbrev bottle_d : Bottle
bottle_d = record { body = codes "#!"; ext = codes ".tar.gz"; digest = codes "d" }

abbrev pub registry : Remote
registry = record {
  dist_base = codes "oci://ghcr.io/packages";
  verify_setting = [];
  has_client = true;
  pull_file = λ project tag. some bottle_d;
  cache = none;
  load_trust_set = some two_keys;
  attestations = λ project tag. some (attached, 0);
  crypto = toy;
  http = λ url. none;
  entries = λ ext body. some (entry file ∷ []);
  abi_provides = λ project tag. [];
}

abbrev tool_bottle : Resolved
tool_bottle = record {
  project = codes "tool_bottle.org";
  version = record {
    raw = codes "1.2";
    nums = pos 1 ∷ pos 2 ∷ [];
    found_tag = [];
    rebuild = pos 0;
    variant = [];
  };
}

abbrev outcome : List Bytes × Result InstallError Bool
outcome =
    install_for small_host registry tool_bottle (codes "srv") (codes "linux") (codes "s390x") []

install_for-IsVouchedFor_example :
    IsUntouched small_host registry tool_bottle
      (codes "srv")
      (codes "linux")
      (codes "s390x")
      []
      outcome
    ⊎ IsUnpacked small_host registry tool_bottle
        (codes "srv")
        (codes "linux")
        (codes "s390x")
        []
        outcome
unfolding trim_space cut_prefix bytes_eq
install_for-IsVouchedFor_example =
    install_for-IsVouchedFor small_host registry tool_bottle (codes "srv") (codes "linux")
      (codes "s390x") [] refl refl
