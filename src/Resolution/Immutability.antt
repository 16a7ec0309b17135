-- ===== src/Resolution/Immutability.antt =====
-- app/resolution/immutability.py: the listener that protects an action's row when it is flushed.
use recon_ai.Prelude.{Bool, true, false, not, ◌&&◌, ◌||◌, Option, none, some, List, ◌∷◌, is_empty}
use recon_ai.Prelude.Text.{Text, text_eq}
use recon_ai.Domain.{ProposedActionStatus}
use recon_ai.Resolution.Guardrails.{is_pending}

-- `PROTECTED_FIELDS`
pub data ProtectedField : Type 0 where
  action_type parameters action_order requires_approval : ProtectedField

-- A changed row as the session sees it: the status and the hash before and after, and the protected
-- fields whose history has changes.
pub record ActionFlush : Type 0 where
  pub prior_status : ProposedActionStatus
  pub new_status : ProposedActionStatus
  pub changed : List ProtectedField
  pub hash_before : Option Text
  pub hash_after : Option Text

-- `LOCKED_STATUSES`: all but PENDING.
abbrev pub is_locked : ProposedActionStatus → Bool
is_locked s = not (is_pending s)

-- A hash that is set, and its change.
abbrev pub is_set : Option Text → Bool
is_set (some (c ∷ s)) = true
is_set _ = false

abbrev pub same_hash : Option Text → Option Text → Bool
same_hash (some a) (some b) = text_eq a b
same_hash none none = true
same_hash _ _ = false

-- `_protect_on_before_flush` raises.
abbrev pub is_refused : ActionFlush → Bool
is_refused f =
    (is_locked f.prior_status || is_locked f.new_status)
    && (not (is_empty f.changed)
        || is_set f.hash_before && not (same_hash f.hash_before f.hash_after))
