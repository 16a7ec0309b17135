-- ===== src/Reconciliation/Rules/Lines/Found.antt =====
-- What `match_line_to_po` finds, described without its exceptions.
use recon_ai.Prelude.{ℕ, List, [], ◌∷◌, Option, none, some, ◌≡◌, refl, ◌⊎◌, inl, inr}
use recon_ai.Prelude.Text.{Text}
use recon_ai.Reconciliation.Schemas.{
  Uuid, EnginePurchaseOrderLine, EnginePurchaseOrder, ExceptionDraft, DocumentLabel,
}
use recon_ai.Reconciliation.Rules.Lines.{
  line_by_id, lines_by_number, by_reference, by_number, match_line_to_po,
}

abbrev pub only : List EnginePurchaseOrderLine → Option EnginePurchaseOrderLine
only (l ∷ []) = some l
only _ = none

-- The line of a reference, or else the only line of the number.
abbrev pub find_line :
    Option Uuid → ℕ → List EnginePurchaseOrderLine → Option EnginePurchaseOrderLine
find_line (some ref) n ls = line_by_id ref ls
find_line none n ls = only (lines_by_number n ls)

module _ (sha256 : Text → Text) (po : EnginePurchaseOrder) where
  -- The outcome is the line that is found, or no line and an exception.
  pub match_line_to_po-cases :
      (ref : Option Uuid) (n : ℕ) (label : DocumentLabel) (document_id line_id : Uuid)
      → let r = match_line_to_po sha256 po ref n label document_id line_id in
        ((l : EnginePurchaseOrderLine) × (find_line ref n po.lines ≡ some l) × (r ≡ (some l, none)))
        ⊎ ((d : ExceptionDraft) × (find_line ref n po.lines ≡ none) × (r ≡ (none, some d)))
  unfolding match_line_to_po
  match_line_to_po-cases (some ref) n label document_id line_id = go (line_by_id ref po.lines)
    where
      go :
          (o : Option EnginePurchaseOrderLine)
          → ((l : EnginePurchaseOrderLine) × (o ≡ some l)
              × (by_reference sha256 po ref label document_id line_id o ≡ (some l, none)))
            ⊎ ((d : ExceptionDraft) × (o ≡ none)
                × (by_reference sha256 po ref label document_id line_id o ≡ (none, some d)))
      go none = inr (_, refl, refl)
      go (some l) = inl (l, refl, refl)
  match_line_to_po-cases none n label document_id line_id = go (lines_by_number n po.lines)
    where
      go :
          (ls : List EnginePurchaseOrderLine)
          → ((l : EnginePurchaseOrderLine) × (only ls ≡ some l)
              × (by_number sha256 po n label document_id line_id ls ≡ (some l, none)))
            ⊎ ((d : ExceptionDraft) × (only ls ≡ none)
                × (by_number sha256 po n label document_id line_id ls ≡ (none, some d)))
      go [] = inr (_, refl, refl)
      go (l ∷ []) = inl (l, refl, refl)
      go (l ∷ m ∷ ls) = inr (_, refl, refl)
