-- ===== src/Specs/Mounts.antt =====
-- server/src/modules/instances/mounts.ts: the host directories that an instance may mount.
use gsm.Common.{
  Bool, not, ◌||◌, List, [], String, ◌==◌, string_eq, if◌then◌else◌, any, contains, Result, ok, err,
  bad_request,
}
use gsm.Specs.{is_empty}
use gsm.Text.{starts_with, drop_trailing, ◌+++◌}

pub record HostMount : Type 0 where
  pub host_path : String
  pub container_path : String
  pub read_only : Bool

within : String → String → Bool
within path root = let r = drop_trailing b'/' root in path == r || starts_with (r +++ "/") path

-- Whether a mount has a problem.
pub is_bad : List String → List String → HostMount → Bool
unfolding within
is_bad roots volume_paths m =
    contains m.container_path volume_paths || not (any (λ r. within m.host_path r) roots)

unfoldable pub check_mounts : List String → List HostMount → List String → Result (List HostMount)
unfolding is_bad
check_mounts roots mounts volume_paths =
    if is_empty mounts
    then ok []
    else if is_empty roots
    then err (bad_request "${node.name} allows no host mounts")
    else if any (is_bad roots volume_paths) mounts
    then err (bad_request "Some mounts are not allowed")
    else ok mounts
