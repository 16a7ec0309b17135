-- ===== src/Access/Sessions.antt =====
-- app/identity/service.py: signing in and out, and the principal of a token. The rows of all tenants
-- are read. A password is checked by `verify`, a token is stored by its digest.
use recon_ai.Prelude.{
  ℕ, ◌+◌, Bool, not, ◌&&◌, List, [], ◌∷◌, ◌++◌, map, Option, none, some, leb, ltb, ◌==◌,
  if◌then◌else◌, length, filter, is_some,
}
use recon_ai.Prelude.Text.{Text, text_eq, strip, is_space}
use recon_ai.Reconciliation.Identity.{fold_char}
use recon_ai.Prelude.Table.{find, update_where}

pub record User : Type 0 where
  pub id : ℕ
  pub email : Text
  pub password_hash : Text
  pub is_active : Bool

pub record Membership : Type 0 where
  pub user_id : ℕ
  pub tenant_id : ℕ
  pub role : Text

pub record UserSession : Type 0 where
  pub user_id : ℕ
  pub tenant_id : ℕ
  pub token_hash : Text
  pub csrf_token : Text
  pub expires_at : ℕ
  pub revoked_at : Option ℕ

pub record LoginAttempt : Type 0 where
  pub email_hash : Text
  pub created_at : ℕ

-- The tables; memberships in the order of their creation.
pub record Accounts : Type 0 where
  pub users : List User
  pub memberships : List Membership
  pub sessions : List UserSession
  pub attempts : List LoginAttempt

pub record Principal : Type 0 where
  pub user_id : ℕ
  pub tenant_id : ℕ
  pub role : Text
  pub email : Text
  pub csrf_token : Text

-- `email.strip().casefold()`
unfoldable pub email_key : Text → Text
email_key email = map fold_char (strip is_space email)

-- `_LOCK_WINDOW`, `_LOCK_LIMIT` and `_SESSION_HOURS`, in seconds.
abbrev pub lock_window : ℕ
lock_window = 900

abbrev pub lock_limit : ℕ
lock_limit = 8

abbrev pub session_length : ℕ
session_length = 43200

-- `_locked`
unfoldable pub locked : Text → ℕ → List LoginAttempt → Bool
locked key now attempts = leb lock_limit (
    length
      (filter (λ a. text_eq a.email_hash key && leb now (a.created_at + lock_window)) attempts))

pub data LoginResult : Type 0 where
  rate_limited invalid_login : LoginResult
  signed_in : Principal → LoginResult

module _ (digest : Text → Text) (verify : Text → Text → Bool) where
  -- `hash_email`
  unfoldable pub hash_email : Text → Text
  hash_email email = digest (email_key email)

  -- The membership that a sign-in takes: the user's first, if the user is active.
  abbrev pub own_membership : Option User → List Membership → Option Membership
  own_membership none memberships = none
  own_membership (some user) memberships =
      if user.is_active then find (λ m. m.user_id == user.id) memberships else none

  abbrev pub refused : Text → ℕ → Accounts → LoginResult × Accounts
  refused email now acc = (
    invalid_login,
    record acc {
      attempts = acc.attempts ++ record { email_hash = hash_email email; created_at = now } ∷ [];
    },
  )

  -- `_new_session`, with the token and the CSRF token that it draws.
  abbrev pub new_session : User → Membership → Text → Text → ℕ → UserSession
  new_session user membership raw csrf now = record {
    user_id = user.id;
    tenant_id = membership.tenant_id;
    token_hash = digest raw;
    csrf_token = csrf;
    expires_at = now + session_length;
    revoked_at = none;
  }

  abbrev pub principal_of : User → Membership → UserSession → Principal
  principal_of user membership row = record {
    user_id = user.id;
    tenant_id = row.tenant_id;
    role = membership.role;
    email = user.email;
    csrf_token = row.csrf_token;
  }

  abbrev pub sign_in :
      Text
      → Text
      → Text
      → Text
      → ℕ
      → Accounts
      → Option User
      → Option Membership
      → LoginResult × Accounts
  sign_in email password raw csrf now acc (some user) (some membership) =
      if verify password user.password_hash
      then (
        signed_in (principal_of user membership (new_session user membership raw csrf now)),
        record acc { sessions = acc.sessions ++ new_session user membership raw csrf now ∷ [] },
      )
      else refused email now acc
  sign_in email password raw csrf now acc _ _ = refused email now acc

  unfoldable pub login : Text → Text → Text → Text → ℕ → Accounts → LoginResult × Accounts
  login email password raw csrf now acc =
      if locked (hash_email email) now acc.attempts
      then (rate_limited, acc)
      else (let user = find (λ u. text_eq u.email (email_key email)) acc.users in
          sign_in email password raw csrf now acc user (own_membership user acc.memberships))

  abbrev pub is_live : ℕ → UserSession → Bool
  is_live now row = not (is_some row.revoked_at) && ltb now row.expires_at

  abbrev pub with_membership : User → UserSession → Option Membership → Option Principal
  with_membership user row none = none
  with_membership user row (some membership) =
      if user.is_active then some (principal_of user membership row) else none

  abbrev pub with_user : UserSession → Accounts → Option User → Option Principal
  with_user row acc none = none
  with_user row acc (some user) =
      with_membership user row
        (find (λ m. m.user_id == row.user_id && m.tenant_id == row.tenant_id) acc.memberships)

  abbrev pub with_session : ℕ → Accounts → Option UserSession → Option Principal
  with_session now acc none = none
  with_session now acc (some row) =
      if is_live now row
      then with_user row acc (find (λ u. u.id == row.user_id) acc.users)
      else none

  unfoldable pub principal_for_token : Text → ℕ → Accounts → Option Principal
  principal_for_token raw now acc =
      with_session now acc (find (λ s. text_eq s.token_hash (digest raw)) acc.sessions)

  abbrev pub revoked : ℕ → UserSession → UserSession
  revoked now row = if is_some row.revoked_at then row else record row { revoked_at = some now }

  unfoldable pub logout : Text → ℕ → Accounts → Accounts
  logout raw now acc = record acc {
    sessions = update_where (λ s. text_eq s.token_hash (digest raw)) (revoked now) acc.sessions;
  }
