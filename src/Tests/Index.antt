-- ===== src/Tests/Index.antt =====
-- A second platform is put into the index of a version.
use bottle.Common.{List, [], ◌∷◌, true, Option, some}
use bottle.Common.Text.{codes}
use bottle.Index.{Descriptor, image_index, platform_tag}
use bottle.Index.Merge.{
  FetchedRef, MergeError, Repository, index_retry_attempts, merge_platform_into_index,
}
use bottle.Index.Survives.{Ends, merge_platform_into_index-Ends}

abbrev linux : Descriptor
linux = record {
  digest = codes "sha256:1";
  platform = some (record { os = codes "linux"; architecture = codes "amd64"; variant = [] });
}

abbrev darwin : Descriptor
darwin = record {
  digest = codes "sha256:2";
  platform = some (record { os = codes "darwin"; architecture = codes "arm64"; variant = [] });
}

-- The state is the index, and nobody else writes it.
abbrev repository : Repository (List Descriptor)
repository = record {
  fetch_reference = λ tag s.
      let found : FetchedRef = record {
        descriptor = linux;
        media = image_index;
        probe_media = [];
        has_manifests = true;
        manifests = some s;
      } in
      (s, some found);
  tags = λ s. (s, some (platform_tag (codes "1.2") (codes "linux") (codes "x86-64") ∷ []));
  tag_index = λ manifests tag s. (manifests, true);
  settle = λ s. s;
  back_off = λ n s. s;
}

abbrev outcome_of_merge : List Descriptor × Option MergeError
outcome_of_merge = merge_platform_into_index repository (codes "1.2") darwin []

merge_platform_into_index-Ends_example :
    Ends repository (codes "1.2") darwin index_retry_attempts 0 [] outcome_of_merge
merge_platform_into_index-Ends_example =
    merge_platform_into_index-Ends repository (codes "1.2") darwin []
