-- ===== src/Access/Tests.antt =====
-- One user of one tenant, and some requests.
use recon_ai.Prelude.{true, true, [], ◌∷◌, none, some, ◌≡◌, refl}
use recon_ai.Prelude.Text.{Text, codes, text_eq, strip, is_space, rstrip}
use recon_ai.Domain.{MembershipRole}
use recon_ai.Reconciliation.Identity.{fold_char}
use recon_ai.Access.{
  Router, is_guarded, passes_guard, Request, role_may, is_safe, path_ends, path_of, permission_for,
}
use recon_ai.Access.Roles.{is_admin, execute_requests}
use recon_ai.Access.Sessions.{
  User, Membership, Accounts, email_key, signed_in, new_session, principal_of, login, locked,
  hash_email, principal_for_token, logout,
}
use recon_ai.Access.Revoked.{logout-revokes, login-principal_for_token}

abbrev digest : Text → Text
digest t = t

abbrev user : User
user = record { id = 1; email = codes "a@b"; password_hash = codes "h"; is_active = true }

abbrev membership : Membership
membership = record { user_id = 1; tenant_id = 2; role = codes "viewer" }

abbrev accounts : Accounts
accounts = record { users = user ∷ []; memberships = membership ∷ []; sessions = []; attempts = [] }

abbrev run_action : Request
run_action = record { method = codes "post"; path = codes "/x/execute/" }

-- A viewer may sign out.
sign_out : passes_guard Router.auth MembershipRole.viewer run_action ≡ true
unfolding passes_guard is_guarded
sign_out = refl

execute_requests_example :
    role_may MembershipRole.approver (permission_for run_action) ≡ is_admin MembershipRole.approver
unfolding is_safe path_ends path_of rstrip text_eq
execute_requests_example = execute_requests run_action MembershipRole.approver refl refl

logout-revokes_example :
    principal_for_token digest text_eq (codes "t") 9 (logout digest text_eq (codes "t") 5 accounts)
    ≡ none
logout-revokes_example = logout-revokes digest text_eq (codes "t") 5 9 accounts

login-principal_for_token_example :
    let p =
      principal_of digest text_eq user membership
        (new_session digest text_eq user membership (codes "t") (codes "c") 5) in
    let r = login digest text_eq (codes " A@b") (codes "h") (codes "t") (codes "c") 5 accounts in
    (r.0 ≡ signed_in p) × (principal_for_token digest text_eq (codes "t") 9 r.1 ≡ some p)
unfolding text_eq email_key fold_char strip is_space locked hash_email
login-principal_for_token_example =
    login-principal_for_token digest text_eq (codes " A@b") (codes "h") (codes "t") (codes "c") 5 9
      accounts user membership refl refl refl refl refl refl refl refl
