-- ===== src/Tests/StorePath.antt =====
-- The name of the directory of a build.
use bottle.Common.{◌≡◌, refl, some, inl}
use bottle.Common.Text.{codes}
use bottle.Tag.{is_variant_hash}
use bottle.StorePath.{store_dir_name, parse_store_dir_name}
use bottle.StorePath.RoundTrip.{parse_store_dir_name-store_dir_name, named}

parse_store_dir_name-store_dir_name_example :
    parse_store_dir_name (store_dir_name (named b'1' (codes ".3.2") (codes "abcdefghijkl2345")))
    ≡ some (named b'1' (codes ".3.2") (codes "abcdefghijkl2345"))
unfolding is_variant_hash
parse_store_dir_name-store_dir_name_example =
    parse_store_dir_name-store_dir_name b'1' (codes ".3.2") (codes "abcdefghijkl2345")
      (refl, (refl, (refl, (refl, (refl, (refl, tt))))), inl refl)
