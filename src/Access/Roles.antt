-- ===== src/Access/Roles.antt =====
-- What the roles may do, and with which requests.
use recon_ai.Prelude.{Bool, true, false, ◌&&◌, ◌||◌, ◌≡◌, refl}
use recon_ai.Domain.{MembershipRole}
use recon_ai.Access.{
  Permission, Request, role_may, is_safe, path_ends, path_rules, first_of, permission_for,
}

abbrev pub is_admin : MembershipRole → Bool
is_admin MembershipRole.admin = true
is_admin _ = false

-- A request that executes an action is open to the administrators alone.
pub execute_requests :
    (r : Request) (role : MembershipRole)
    → is_safe r ≡ false
    → path_ends r "/execute" ≡ true
    → role_may role (permission_for r) ≡ is_admin role
unfolding role_may permission_for path_rules first_of
execute_requests r MembershipRole.viewer changing here = rw (changing, here) refl
execute_requests r MembershipRole.operator changing here = rw (changing, here) refl
execute_requests r MembershipRole.reviewer changing here = rw (changing, here) refl
execute_requests r MembershipRole.approver changing here = rw (changing, here) refl
execute_requests r MembershipRole.admin changing here = refl

-- No role but the administrator's both approves resolution actions and works on the documents,
-- the reviews or the reconciliations that they come from.
pub duties_apart :
    (role : MembershipRole)
    → is_admin role ≡ false
    → (role_may role Permission.approve
        && (role_may role Permission.upload
            || (role_may role Permission.review || role_may role Permission.reconcile)))
      ≡ false
unfolding role_may
duties_apart MembershipRole.viewer h = refl
duties_apart MembershipRole.operator h = refl
duties_apart MembershipRole.reviewer h = refl
duties_apart MembershipRole.approver h = refl
duties_apart MembershipRole.admin h = cc
