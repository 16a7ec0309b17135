-- ===== src/Resolution/Execution/Keys.antt =====
-- The idempotency keys of the executions: a key is used once, and a call under a used key changes
-- nothing.
use recon_ai.Prelude.{
  Bool, true, false, List, [], ◌∷◌, ◌++◌, Option, none, ◌≡◌, refl, sym, ◌∙◌, ◌⊎◌, inl, inr, ◌==◌,
  if◌then◌else◌, any, ◌||◌, Option-cases, is_some, arith,
}
use recon_ai.Prelude.Text.{Text, text_eq, text_eq_iff}
use recon_ai.Prelude.Json.{Json}
use recon_ai.Resolution.Model.{
  ProposedAction, ActionExecution, ActionRegistry, ExceptionRow, ResolutionPlan, Store,
}
use recon_ai.Prelude.Table.{find, update_where}
use recon_ai.Resolution.Rows.{
  Request, set_plan_status, set_action_status, set_execution, record_event, find_execution,
  executions_of,
}
use recon_ai.Prelude.Check.{ok}
use recon_ai.Resolution.Guardrails.{validate_execution}
use recon_ai.Resolution.Execution.{insert_and_run, insert_into, new_execution, execute_action}
use recon_ai.Resolution.Execution.Cases.{Found, key_of, execute_action-cases}
use recon_ai.Resolution.Execution.Authorized.{unused-key}
use recon_ai.Resolution.Execution.Writes.{Kept, inserted-keeps}

abbrev pub is_used : Text → List ActionExecution → Bool
is_used key = any (λ e. text_eq e.idempotency_key key)

pub is_some-find {ℓ} : {A : Type ℓ} (p : A → Bool) (xs : List A) → is_some (find p xs) ≡ any p xs
is_some-find p [] = refl
is_some-find p (x ∷ xs) = let ih = is_some-find p xs in ground (arith, ih)

module _ (f : ActionExecution → ActionExecution)
    (same : (e : ActionExecution) → (f e).idempotency_key ≡ e.idempotency_key) where
  pub either-key :
      (b : Bool) (e : ActionExecution) → (if b then f e else e).idempotency_key ≡ e.idempotency_key
  either-key true e = same e
  either-key false e = refl

  pub is_used-update_where :
      (key : Text) (p : ActionExecution → Bool) (es : List ActionExecution)
      → is_used key (update_where p f es) ≡ is_used key es
  is_used-update_where key p [] = refl
  is_used-update_where key p (e ∷ es) = rw (either-key (p e) e, is_used-update_where key p es)

pub is_used-append :
    (key : Text) (xs ys : List ActionExecution)
    → is_used key (xs ++ ys) ≡ (is_used key xs || is_used key ys)
is_used-append key [] ys = refl
is_used-append key (x ∷ xs) ys = let ih = is_used-append key xs ys in ground (arith, ih)

text_eq_refl : (t : Text) → text_eq t t ≡ true
text_eq_refl t = (text_eq_iff t t).1 refl

-- A used key stays used.
abbrev IsUsed : Text → Store → Type 0
IsUsed key st = is_used key st.executions ≡ true

IsUsed-Kept : (key : Text) → Kept (IsUsed key)
unfolding set_plan_status set_action_status set_execution record_event
IsUsed-Kept key = record {
  plan_kept = λ i s st h. h;
  action_kept = λ i s st h. h;
  execution_kept =
      λ i f st same h. is_used-update_where f same key (λ e. e.id == i) st.executions ∙ h;
  event_kept = λ event plan action i st h. h;
  world_kept = λ w st h. h;
}

is_used-new :
    (rq : Request) (key : Text) (action : ProposedAction) (table : List ActionExecution)
    → is_used key (table ++ new_execution rq key action ∷ []) ≡ true
is_used-new rq key action table =
    let last = is_used-append key table (new_execution rq key action ∷ []) in
    let refl_key = text_eq_refl key in ground (arith, last, refl_key)

module _ (registry : ActionRegistry) (compute_hash : Json → Text) where
  insert_into-IsUsed :
      (rq : Request) (key : Text) (plan : ResolutionPlan) (action : ProposedAction)
      (before : ExceptionRow) (table : List ActionExecution) (st : Store)
      → IsUsed key
          (insert_into registry compute_hash rq key plan action before table st
            (find_execution key table)).1
  insert_into-IsUsed rq key plan action before table st =
      elim (Option-cases (find_execution key table)) [
        | inl free ↦ transport-key free (
            inserted-keeps (IsUsed key) (IsUsed-Kept key) registry compute_hash rq plan action
              before key table st (is_used-new rq key action table))
        | inr (e, found) ↦
            transport-key found
              (sym (is_some-find (λ x. text_eq x.idempotency_key key) table) ∙ rw found)
      ]
    where
      transport-key :
          {o : Option ActionExecution}
          → find_execution key table ≡ o
          → IsUsed key (insert_into registry compute_hash rq key plan action before table st o).1
          → IsUsed key
              (insert_into registry compute_hash rq key plan action before table st
                (find_execution key table)).1
      transport-key e h = (rw e) ∙ h

  -- A call whose key an execution has leaves the store as it is.
  pub used_key_unchanged :
      (rq : Request) (st : Store)
      → is_used (key_of rq) st.executions ≡ true
      → (execute_action registry compute_hash rq st).1 ≡ st
  used_key_unchanged rq st used = elim (execute_action-cases registry compute_hash rq st) [
    | inl (o, called) ↦ rw called
    | inr (inl (f, valid, e, called)) ↦ impossible f valid
    | inr (inr (f, valid, passed, called)) ↦ impossible f valid
  ]
    where
      impossible :
          (f : Found rq st)
          → validate_execution f.action
              (key_of rq)
              (find_execution (key_of rq) st.executions)
              (executions_of f.action st)
            ≡ ok none
          → (execute_action registry compute_hash rq st).1 ≡ st
      impossible f valid =
          let free : find_execution (key_of rq) st.executions ≡ none =
            (unused-key registry compute_hash rq st f valid).0 in
          let unused : is_used (key_of rq) st.executions ≡ false =
            sym (is_some-find _ st.executions) ∙ rw free in
          cc

  -- After a call, a further call with the same key changes nothing; or the first has changed nothing
  -- but the audit trail.
  pub retry_unchanged :
      (rq again : Request) (st : Store)
      → key_of again ≡ key_of rq
      → let after = (execute_action registry compute_hash rq st).1 in
        ((execute_action registry compute_hash again after).1 ≡ after)
        ⊎ (after ≡ record st { audit = after.audit })
  unfolding record_event insert_and_run
  retry_unchanged rq again st same = elim (execute_action-cases registry compute_hash rq st) [
    | inl (o, called) ↦ inr (rw called)
    | inr (inl (f, valid, e, called)) ↦ inr (rw called)
    | inr (inr (f, valid, passed, called)) ↦ inl (
        used_key_unchanged again _ (
          (rw (same, called))
          ∙ insert_into-IsUsed rq (key_of rq) f.plan f.action f.before (st.executions ++ rq.raced)
              st))
  ]
