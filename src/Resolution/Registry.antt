-- ===== src/Resolution/Registry.antt =====
-- app/resolution/registry.py: `register` and `build_default_registry`, over the handlers that it is given.
use recon_ai.Prelude.{
  ℕ, Bool, true, false, not, none, some, List, [], ◌∷◌, ◌≡◌, refl, sym, ap, subst, ◌∙◌,
  if◌then◌else◌, ◌==◌, ==_iff,
}
use recon_ai.Prelude.Check.{Check, ok, ◌>>=◌, ◌>>◌, raise_if, bind-ok, guard-ok, ok_injective}
use recon_ai.Domain.{ActionType}
use recon_ai.Resolution.Model.{ActionHandler, ActionRegistry}

pub data RegistryError : Type 0 where
  type_mismatch : RegistryError

abbrev type_index : ActionType → ℕ
type_index ActionType.route_to_review = 0
type_index ActionType.request_vendor_clarification = 1
type_index ActionType.request_missing_document = 2
type_index ActionType.escalate_to_manager = 3

-- `==` on types
abbrev pub same_type : ActionType → ActionType → Bool
same_type t u = type_index t == type_index u

-- `register`
unfoldable pub register :
    ActionType → ActionHandler → ActionRegistry → Check RegistryError ActionRegistry
register t handler registry = do
  raise_if (not (same_type handler.action_type t)) type_mismatch
  ok (λ u. if same_type u t then some handler else registry u)

-- The loop of `build_default_registry`: each handler under its own type.
unfoldable pub register_all :
    List ActionHandler → ActionRegistry → Check RegistryError ActionRegistry
register_all [] registry = ok registry
register_all (handler ∷ handlers) registry = do
  next ← register handler.action_type handler registry
  register_all handlers next

unfoldable pub build_registry : List ActionHandler → Check RegistryError ActionRegistry
build_registry handlers = register_all handlers (λ t. none)

-- A handler is found under its own type only.
abbrev pub IsTyped : ActionRegistry → Type 0
IsTyped registry =
    (t : ActionType) (h : ActionHandler) → registry t ≡ some h → same_type h.action_type t ≡ true

not-not : (b : Bool) → not b ≡ false → b ≡ true
not-not true h = refl
not-not false h = cc

-- A registration keeps each handler under its own type.
pub register-IsTyped :
    (t : ActionType) (handler : ActionHandler) (registry next : ActionRegistry)
    → IsTyped registry
    → register t handler registry ≡ ok next
    → IsTyped next
unfolding register
register-IsTyped t handler registry next typed h =
    let (own, same) = guard-ok (not (same_type handler.action_type t)) type_mismatch _ h in
    subst IsTyped (ok_injective _ next same)
      (λ u found e. at (not-not _ own) u found (same_type u t) refl e)
  where
    at :
        same_type handler.action_type t ≡ true
        → (u : ActionType) (found : ActionHandler) (b : Bool) → same_type u t ≡ b
        → (if b then some handler else registry u) ≡ some found
        → same_type found.action_type u ≡ true
    at own u found true here e =
        let one : handler ≡ found = cc in
        let kept : type_index handler.action_type ≡ type_index t = (==_iff _ _).0 own in
        let asked : type_index u ≡ type_index t = (==_iff _ _).0 here in
        (==_iff _ _).1 (ap (λ x. type_index x.action_type) (sym one) ∙ kept ∙ sym asked)
    at own u found false here e = typed u found e

-- A registry that is built has each handler under its own type.
pub register_all-IsTyped :
    (handlers : List ActionHandler) (registry built : ActionRegistry)
    → IsTyped registry
    → register_all handlers registry ≡ ok built
    → IsTyped built
unfolding register_all
register_all-IsTyped [] registry built typed h = subst IsTyped (ok_injective registry built h) typed
register_all-IsTyped (handler ∷ handlers) registry built typed h =
    let (next, here, h1) = bind-ok (register handler.action_type handler registry) _ h in
    register_all-IsTyped handlers next built
      (register-IsTyped handler.action_type handler registry next typed here) h1

pub build_registry-IsTyped :
    (handlers : List ActionHandler) (built : ActionRegistry)
    → build_registry handlers ≡ ok built
    → IsTyped built
unfolding build_registry
build_registry-IsTyped handlers built h =
    register_all-IsTyped handlers (λ t. none) built (λ t found e. cc) h
