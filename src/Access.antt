-- ===== src/Access.antt =====
-- app/identity: the permissions of the roles, the permission that a request needs, and sessions.
mod Tests
pub mod Roles
pub mod Sessions
pub mod Revoked
use recon_ai.Prelude.{
  ℕ, ◌-◌, Bool, true, false, not, ◌&&◌, ◌||◌, List, [], ◌∷◌, map, Option, none, some, leb, ◌==◌,
  if◌then◌else◌, is_empty,
}
use recon_ai.Prelude.Text.{Text, codes, text_eq, rstrip}
use recon_ai.Domain.{MembershipRole}
use Prim.Native.String.{String}

pub data Permission : Type 0 where
  view upload understand request_review operate review promote reconcile plan approve execute policy
        manage_users :
      Permission

-- `_VIEWER`, …, `_ADMIN`
abbrev pub viewer_may : Permission → Bool
viewer_may Permission.view = true
viewer_may _ = false

abbrev pub operator_may : Permission → Bool
operator_may Permission.upload = true
operator_may Permission.understand = true
operator_may Permission.request_review = true
operator_may Permission.operate = true
operator_may p = viewer_may p

abbrev pub reviewer_may : Permission → Bool
reviewer_may Permission.review = true
reviewer_may Permission.promote = true
reviewer_may Permission.reconcile = true
reviewer_may p = operator_may p

abbrev pub approver_may : Permission → Bool
approver_may Permission.plan = true
approver_may Permission.approve = true
approver_may p = viewer_may p

-- `permission in ROLE_PERMISSIONS[role]`
unfoldable pub role_may : MembershipRole → Permission → Bool
role_may MembershipRole.viewer p = viewer_may p
role_may MembershipRole.operator p = operator_may p
role_may MembershipRole.reviewer p = reviewer_may p
role_may MembershipRole.approver p = approver_may p
role_may MembershipRole.admin p = true

-- `MembershipRole(role)`
unfoldable pub parse_role : Text → Option MembershipRole
parse_role t =
    if text_eq t (codes "viewer")
    then some MembershipRole.viewer
    else if text_eq t (codes "operator")
    then some MembershipRole.operator
    else if text_eq t (codes "reviewer")
    then some MembershipRole.reviewer
    else if text_eq t (codes "approver")
    then some MembershipRole.approver
    else if text_eq t (codes "admin")
    then some MembershipRole.admin
    else none

abbrev pub parsed_may : Option MembershipRole → Permission → Bool
parsed_may none p = false
parsed_may (some role) p = role_may role p

unfoldable pub allows : Text → Permission → Bool
allows role p = parsed_may (parse_role role) p

pub record Request : Type 0 where
  pub method : Text
  pub path : Text

-- `str.upper` on ASCII.
abbrev upper_char : ℕ → ℕ
upper_char c = if leb b'a' c && leb c b'z' then c - 32 else c

abbrev starts_with : Text → Text → Bool
starts_with [] t = true
starts_with (a ∷ s) [] = false
starts_with (a ∷ s) (b ∷ t) = a == b && starts_with s t

-- `suffix`: `path.endswith(s)`.
abbrev ends_with : Text → Text → Bool
ends_with s [] = is_empty s
ends_with s (c ∷ t) = text_eq s (c ∷ t) || ends_with s t

-- `s in path`
abbrev contains : Text → Text → Bool
contains s [] = is_empty s
contains s (c ∷ t) = starts_with s (c ∷ t) || contains s t

-- `method in _SAFE`
unfoldable pub is_safe : Request → Bool
is_safe r =
    let method = map upper_char r.method in
    text_eq method (codes "GET")
    || text_eq method (codes "HEAD")
    || text_eq method (codes "OPTIONS")

unfoldable pub is_post : Request → Bool
is_post r = text_eq (map upper_char r.method) (codes "POST")

abbrev or_root : Text → Text
or_root [] = codes "/"
or_root (c ∷ t) = c ∷ t

unfoldable pub path_of : Request → Text
path_of r = or_root (rstrip (λ c. c == b'/') r.path)

unfoldable pub path_ends : Request → String → Bool
path_ends r s = ends_with (codes s) (path_of r)

unfoldable pub path_has : Request → String → Bool
path_has r s = contains (codes s) (path_of r)

abbrev pub decision : Request → Permission
decision r = if path_has r "/resolution-plans/" then Permission.approve else Permission.review

-- The tests of a request that may change something, in order, each with the permission returned.
unfoldable pub path_rules : Request → List (Bool × Permission)
path_rules r =
    (path_ends r "/execute", Permission.execute)
    ∷ (path_ends r "/promote", Permission.promote)
    ∷ (path_ends r "/approve" || path_ends r "/correct" || path_ends r "/reject", decision r)
    ∷ (path_ends r "/policy-explanation" || path_ends r "/resolution-plan", Permission.plan)
    ∷ (path_ends r "/understand" || path_ends r "/llm-understand", Permission.understand)
    ∷ (path_ends r "/jobs" && is_post r, Permission.understand)
    ∷ (path_has r "/jobs/" && path_ends r "/retry", Permission.understand)
    ∷ (path_has r "/jobs/" && path_ends r "/cancel", Permission.understand)
    ∷ (path_ends r "/review/tasks", Permission.request_review)
    ∷ (path_ends r "/reconciliation/run", Permission.reconcile)
    ∷ (path_has r "/policies", Permission.policy)
    ∷ (path_ends r "/documents" && is_post r, Permission.upload)
    ∷ (path_ends r "/users", Permission.manage_users)
    ∷ []

-- The chain of `if … return`.
unfoldable pub first_of : List (Bool × Permission) → Permission
first_of [] = Permission.operate
first_of ((b, p) ∷ rules) = if b then p else first_of rules

unfoldable pub permission_for : Request → Permission
permission_for r = if is_safe r then Permission.view else first_of (path_rules r)

-- The routers that `create_app` of main.py mounts.
pub data Router : Type 0 where
  health auth dashboard reconciliation documents review policies resolution anomalies risk vendors
        purchase_orders goods_receipts invoices jobs :
      Router

-- `dependencies=guard`: all routers but two are behind `require_access`.
unfoldable pub is_guarded : Router → Bool
is_guarded Router.health = false
is_guarded Router.auth = false
is_guarded _ = true

-- `require_access`, where the router has it; what a route asks for itself comes on top.
unfoldable pub passes_guard : Router → MembershipRole → Request → Bool
passes_guard router role r = not (is_guarded router) || role_may role (permission_for r)
