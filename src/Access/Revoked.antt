-- ===== src/Access/Revoked.antt =====
-- A token from the sign-in to the sign-out.
use recon_ai.Prelude.{
  ℕ, ◌+◌, Bool, true, false, ◌&&◌, List, [], ◌∷◌, ◌++◌, Option, none, some, ◌≡◌, refl, ap, ◌∙◌, ltb,
  ◌==◌, ==_refl, if◌then◌else◌, any, is_some, Bool-cases, inl, inr,
}
use recon_ai.Prelude.Text.{Text, text_eq, text_eq_iff}
use recon_ai.Prelude.Table.{find, opt_map, find-update_where, find-append}
use recon_ai.Access.Sessions.{
  User, Membership, UserSession, Accounts, signed_in, session_length, email_key, new_session,
  principal_of, login, locked, hash_email, with_session, principal_for_token, revoked, logout,
}

module _ (digest : Text → Text) (verify : Text → Text → Bool) where
  revoked-same_token :
      (raw : Text) (now : ℕ) (row : UserSession)
      → text_eq (revoked digest verify now row).token_hash (digest raw)
        ≡ text_eq row.token_hash (digest raw)
  revoked-same_token raw now row = elim (Bool-cases (is_some row.revoked_at)) [
    | inl e ↦ rw e refl
    | inr e ↦ rw e refl
  ]

  revoked-dead :
      (now later : ℕ) (acc : Accounts) (o : Option UserSession)
      → with_session digest verify later acc (opt_map (revoked digest verify now) o) ≡ none
  revoked-dead now later acc none = refl
  revoked-dead now later acc (some row) = elim (Bool-cases (is_some row.revoked_at)) [
    | inl e ↦ rw (e, e) refl
    | inr e ↦ rw e refl
  ]

  -- After a sign-out, the token is nobody's, at any time.
  pub logout-revokes :
      (raw : Text) (now later : ℕ) (acc : Accounts)
      → principal_for_token digest verify raw later (logout digest verify raw now acc) ≡ none
  unfolding principal_for_token logout
  logout-revokes raw now later acc =
      let after = logout digest verify raw now acc in
      ap (with_session digest verify later after) (
        find-update_where (λ s. text_eq s.token_hash (digest raw)) (revoked digest verify now)
          (revoked-same_token raw now) acc.sessions)
      ∙ revoked-dead now later after (find (λ s. text_eq s.token_hash (digest raw)) acc.sessions)

  refine-first :
      (p q : Membership → Bool) (b : Bool) (x y : Membership) (o r : Option Membership)
      → p x ≡ b
      → q y ≡ true
      → (if b then some x else o) ≡ some y
      → (o ≡ some y → r ≡ some y)
      → (if p x && q x then some x else r) ≡ some y
  refine-first p q true x y o r e hq found rest =
      let same : x ≡ y = cc found in let holds : q x ≡ true = ap q same ∙ hq in rw (e, holds) found
  refine-first p q false x y o r e hq found rest = rw e (rest found)

  -- The first row of a kind is the first of a narrower kind that it is of.
  find-refine :
      (p q : Membership → Bool) (xs : List Membership) (y : Membership)
      → find p xs ≡ some y
      → q y ≡ true
      → find (λ x. p x && q x) xs ≡ some y
  find-refine p q [] y found h = cc
  find-refine p q (x ∷ xs) y found h =
      refine-first p q (p x) x y (find p xs) (find (λ x. p x && q x) xs) refl h found
        (λ later. find-refine p q xs y later h)

  -- A sign-in with the right password, on an account that is active, has a membership and is not
  -- locked, gives a principal, and until the session expires the new token is that principal's.
  pub login-principal_for_token :
      (email password raw csrf : Text) (now later : ℕ) (acc : Accounts) (user : User)
      (membership : Membership)
      → find (λ u. text_eq u.email (email_key email)) acc.users ≡ some user
      → find (λ u. u.id == user.id) acc.users ≡ some user
      → user.is_active ≡ true
      → find (λ m. m.user_id == user.id) acc.memberships ≡ some membership
      → verify password user.password_hash ≡ true
      → locked (hash_email digest verify email) now acc.attempts ≡ false
      → any (λ s. text_eq s.token_hash (digest raw)) acc.sessions ≡ false
      → ltb later (now + session_length) ≡ true
      → let p =
          principal_of digest verify user membership
            (new_session digest verify user membership raw csrf now) in
        let r = login digest verify email password raw csrf now acc in
        (r.0 ≡ signed_in p) × (principal_for_token digest verify raw later r.1 ≡ some p)
  unfolding login principal_for_token
  login-principal_for_token email password raw csrf now later acc user membership found by_id active
        member right open_account fresh in_time =
      let row = new_session digest verify user membership raw csrf now in
      let after = record acc { sessions = acc.sessions ++ row ∷ [] } in
      let done : login digest verify email password raw csrf now acc
          ≡ (signed_in (principal_of digest verify user membership row), after) =
        rw (open_account, found, active, member, right) in
      let p = λ (s : UserSession). text_eq s.token_hash (digest raw) in
      let there : find p after.sessions ≡ some row =
        find-append p acc.sessions (row ∷ []) fresh
        ∙ rw ((text_eq_iff (digest raw) (digest raw)).1 refl) in
      let own : find (λ m. m.user_id == user.id && m.tenant_id == membership.tenant_id)
            acc.memberships
          ≡ some membership =
        find-refine (λ m. m.user_id == user.id) (λ m. m.tenant_id == membership.tenant_id)
          acc.memberships membership member (==_refl membership.tenant_id) in
      let live : with_session digest verify later after (some row)
          ≡ some (principal_of digest verify user membership row) =
        rw (in_time, by_id, own, active) in
      (
        ap (λ r. r.0) done,
        ap (λ r. principal_for_token digest verify raw later r.1) done
            ∙ ap (with_session digest verify later after) there
            ∙ live,
      )
