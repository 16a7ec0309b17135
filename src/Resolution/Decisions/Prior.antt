-- ===== src/Resolution/Decisions/Prior.antt =====
-- The earlier approval that a decision gives back is a stored row, of its action and its kind.
use recon_ai.Prelude.{
  ◌++◌, sym, ◌⊎◌, inl, inr, Bool-cases, Bool, true, false, not, ◌&&◌, ◌||◌, Option, none, some,
  List, [], ◌∷◌, ◌≡◌, refl, ap, subst, ◌∙◌, if◌then◌else◌, all, filter, ◌==◌, arith,
}
use recon_ai.Prelude.Text.{Text}
use recon_ai.Prelude.Table.{find}
use recon_ai.Prelude.Check.{ok, ◌>>=◌, bind-ok, guard-ok, ok_injective}
use recon_ai.Domain.{ApprovalDecision}
use recon_ai.Resolution.Model.{ProposedAction, ActionApproval, Store}
use recon_ai.Resolution.Guardrails.{latest, latest_from, approval_before}
use recon_ai.Resolution.Rows.{approvals_of}
use recon_ai.Resolution.Decisions.{
  DecisionError, Decided, key_of_other, key_conflict, or_missing, same_decision, replay, has_target,
  find_key, has_key, prior_decision,
}

-- The approval is one of the rows.
abbrev pub IsStored : ActionApproval → List ActionApproval → Type 0
IsStored a [] = ⊥
IsStored a (x ∷ xs) = (x ≡ a) ⊎ IsStored a xs

pub find-IsStored :
    (p : ActionApproval → Bool) (xs : List ActionApproval) {a : ActionApproval}
    → find p xs ≡ some a
    → IsStored a xs
find-IsStored p [] h = cc
find-IsStored p (x ∷ xs) {a} h = elim (Bool-cases (p x)) [
  | inl e ↦ let here : some x ≡ some a = sym (rw e) ∙ h in inl (cc here)
  | inr e ↦ inr (find-IsStored p xs (sym (rw e) ∙ h))
]

pub find_key-IsStored :
    (key : Option Text) (xs : List ActionApproval) {a : ActionApproval}
    → find_key key xs ≡ some a
    → IsStored a xs
find_key-IsStored none xs h = cc
find_key-IsStored (some k) xs h = find-IsStored (has_key k) xs h

pub append-IsStored :
    (a : ActionApproval) (xs ys : List ActionApproval) → IsStored a ys → IsStored a (xs ++ ys)
append-IsStored a [] ys h = h
append-IsStored a (x ∷ xs) ys h = inr (append-IsStored a xs ys h)

filter-IsStored :
    (p : ActionApproval → Bool) (a : ActionApproval) (xs : List ActionApproval)
    → IsStored a (filter p xs)
    → IsStored a xs
filter-IsStored p a [] h = h
filter-IsStored p a (x ∷ xs) h = kept (p x) h (filter-IsStored p a xs)
  where
    kept :
        (b : Bool)
        → IsStored a (if b then x ∷ filter p xs else filter p xs)
        → (IsStored a (filter p xs) → IsStored a xs)
        → (x ≡ a) ⊎ IsStored a xs
    kept true h rest = elim h [ inl e ↦ inl e | inr l ↦ inr (rest l) ]
    kept false h rest = inr (rest h)

latest_from-IsStored :
    (best : ActionApproval) (xs : List ActionApproval) → IsStored (latest_from best xs) (best ∷ xs)
unfolding latest_from
latest_from-IsStored best [] = inl refl
latest_from-IsStored best (x ∷ xs) =
    chosen (approval_before best x) (λ b. latest_from-IsStored b xs)
  where
    chosen :
        (b : Bool)
        → ((y : ActionApproval) → IsStored (latest_from y xs) (y ∷ xs))
        → IsStored (latest_from (if b then x else best) xs) (best ∷ x ∷ xs)
    chosen true rest = inr (rest x)
    chosen false rest = elim (rest best) [ inl e ↦ inl e | inr l ↦ inr (inr l) ]

latest-IsStored :
    (xs : List ActionApproval) {a : ActionApproval} → latest xs ≡ some a → IsStored a xs
unfolding latest
latest-IsStored [] h = cc
latest-IsStored (x ∷ xs) {a} h =
    let same : latest_from x xs ≡ a = cc in
    subst (λ y. IsStored y (x ∷ xs)) same (latest_from-IsStored x xs)

-- The row that is found is one of those that are looked at.
latest_from-holds :
    (p : ActionApproval → Bool) (best : ActionApproval) (xs : List ActionApproval)
    → p best ≡ true
    → all p xs ≡ true
    → p (latest_from best xs) ≡ true
unfolding latest_from
latest_from-holds p best [] here h = here
latest_from-holds p best (x ∷ xs) here h =
    latest_from-holds p (if approval_before best x then x else best) xs
      (better (approval_before best x)) (ground (arith, h))
  where
    this : p x ≡ true
    this = ground (arith, h)

    better : (b : Bool) → p (if b then x else best) ≡ true
    better true = this
    better false = here

latest-holds :
    (p : ActionApproval → Bool) (xs : List ActionApproval) {a : ActionApproval}
    → all p xs ≡ true
    → latest xs ≡ some a
    → p a ≡ true
unfolding latest
latest-holds p [] h e = cc
latest-holds p (x ∷ xs) {a} h e =
    let same : latest_from x xs ≡ a = cc in
    subst (λ y. p y ≡ true) same (latest_from-holds p x xs (ground (arith, h)) (ground (arith, h)))

all-filter : (p : ActionApproval → Bool) (xs : List ActionApproval) → all p (filter p xs) ≡ true
all-filter p [] = refl
all-filter p (x ∷ xs) = let ih = all-filter p xs in ground (arith, ih)

all-filter_other :
    (p q : ActionApproval → Bool) (xs : List ActionApproval)
    → all p xs ≡ true
    → all p (filter q xs) ≡ true
all-filter_other p q [] h = refl
all-filter_other p q (x ∷ xs) h =
    let ih = all-filter_other p q xs (ground (arith, h)) in ground (arith, h, ih)

pub prior-own :
    (action : ProposedAction) (decision : ApprovalDecision) (st : Store) {a : ActionApproval}
    → prior_decision action decision st ≡ some a
    → ((a.proposed_action_id == action.id) ≡ true) × (same_decision a.decision decision ≡ true)
unfolding prior_decision
prior-own action decision st {a} h = (
  latest-holds (λ x. x.proposed_action_id == action.id) rows
      (all-filter_other (λ x. x.proposed_action_id == action.id)
        (λ x. same_decision x.decision decision) (approvals_of action st)
        (all-filter (λ x. x.proposed_action_id == action.id) st.approvals))
      (found (has_target decision action.status) h),
  latest-holds (λ x. same_decision x.decision decision) rows
      (all-filter (λ x. same_decision x.decision decision) (approvals_of action st))
      (found (has_target decision action.status) h),
)
  where
    rows : List ActionApproval
    rows = filter (λ x. same_decision x.decision decision) (approvals_of action st)

    found : (b : Bool) → (if b then latest rows else none) ≡ some a → latest rows ≡ some a
    found true e = e
    found false e = cc

pub prior-IsStored :
    (action : ProposedAction) (decision : ApprovalDecision) (st : Store) {a : ActionApproval}
    → prior_decision action decision st ≡ some a
    → IsStored a st.approvals
unfolding prior_decision
prior-IsStored action decision st {a} h =
    filter-IsStored (λ x. x.proposed_action_id == action.id) a st.approvals
      (filter-IsStored (λ x. same_decision x.decision decision) a (approvals_of action st)
        (latest-IsStored (filter (λ x. same_decision x.decision decision) (approvals_of action st))
          (found (has_target decision action.status) h)))
  where
    found :
        (b : Bool)
        → (if b
            then latest (filter (λ x. same_decision x.decision decision) (approvals_of action st))
            else none)
          ≡ some a
        → latest (filter (λ x. same_decision x.decision decision) (approvals_of action st)) ≡ some a
    found true e = e
    found false e = cc

pub replay-own :
    (action : ProposedAction) (decision : ApprovalDecision) (existing : ActionApproval)
    {a : ActionApproval}
    → replay action decision existing ≡ ok a
    → ((existing.proposed_action_id == action.id) ≡ true)
      × (same_decision existing.decision decision ≡ true)
      × (existing ≡ a)
replay-own action decision existing h =
    let (own, h1) = guard-ok (not (existing.proposed_action_id == action.id)) key_of_other _ h in
    let (agrees, h2) =
      guard-ok (not (same_decision existing.decision decision)) key_conflict _ h1 in
    (not-false _ own, not-false _ agrees, ok_injective existing _ h2)
  where
    not-false : (b : Bool) → not b ≡ false → b ≡ true
    not-false true h = refl
    not-false false h = cc

pub or_missing-ok :
    {A : Type 0} (e : DecisionError) (o : Option A) {a : A} → or_missing e o ≡ ok a → o ≡ some a
or_missing-ok e none h = cc
or_missing-ok e (some a) h = cc

pub not_both : (a b : Bool) → (not a && not b) ≡ false → (a || b) ≡ true
not_both true b h = refl
not_both false true h = refl
not_both false false h = cc

abbrev pub with_store : Store → ActionApproval → Decided (ActionApproval × Store)
with_store s a = ok (a, s)

pub replay_pair :
    (action : ProposedAction) (decision : ApprovalDecision) (existing : ActionApproval) (s : Store)
    {a : ActionApproval} {st' : Store}
    → (replay action decision existing >>= with_store s) ≡ ok (a, st')
    → (replay action decision existing ≡ ok a) × (s ≡ st')
replay_pair action decision existing s {a} h =
    let (x, given, same) = bind-ok (replay action decision existing) (with_store s) h in
    let pairs = ok_injective (x, s) _ same in
    (given ∙ ap (λ y. ok (y.0)) pairs, ap (λ y. y.1) pairs)
