-- ===== src/Access/Checks.antt =====
-- What a check of a permission answers.
use gsm.Common.{ℕ, ◌≡◌, false, none, arith}
use gsm.Enums.{is_admin}
use gsm.Access.{Requester, Tables, role_on, find_instance, assert_instance_permission}
use gsm.Access.Roles.{InstancePermission}

-- Ids cannot be probed: to a user with no role on it, an existing instance answers every check as
-- an instance that does not exist does.
pub assert_instance_permission_hides :
    (db : Tables) (u : Requester) (id missing : ℕ) (p q : InstancePermission)
    → is_admin u.role ≡ false
    → role_on db u id ≡ none
    → find_instance db missing ≡ none
    → assert_instance_permission db u id p ≡ assert_instance_permission db u missing q
unfolding assert_instance_permission role_on
assert_instance_permission_hides db u id missing p q scoped hidden gone = ground arith
