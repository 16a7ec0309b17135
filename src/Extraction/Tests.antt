-- ===== src/Extraction/Tests.antt =====
-- A concrete invoice candidate of app/extraction.
use recon_ai.Prelude.{true, false, [], ◌∷◌, none, some, ◌≡◌, refl, ◌↔◌}
use recon_ai.Prelude.Int.{pos}
use recon_ai.Prelude.Text.{codes}
use recon_ai.Domain.{DocumentType}
use recon_ai.Extraction.Normalizer.{normalize_business_value}
use recon_ai.Extraction.Validator.{
  CandidateLine, Candidate, invoice, validate_candidate, has_hard_validation_errors,
}
use recon_ai.Extraction.Validator.Complete.{IsComplete, validate_candidate-IsComplete}

abbrev line : CandidateLine
line = record {
  line_number = some 1;
  description = none;
  quantity = some (pos 20000);
  unit_price = some (pos 0);
  tax_rate = none;
}

abbrev candidate : Candidate
candidate = invoice (record {
  invoice_number = some (codes "INV-7");
  po_number = none;
  vendor_name = some (codes "Acme");
  invoice_date = some 100;
  currency = none;
  subtotal = none;
  tax_amount = none;
  total_amount = none;
  lines = line ∷ [];
})

withheld : normalize_business_value (some (codes " N/A ")) ≡ none
unfolding normalize_business_value
withheld = refl

spaced : normalize_business_value (some (codes " PO   7 ")) ≡ some (codes "PO 7")
unfolding normalize_business_value
spaced = refl

validate_candidate-IsComplete_example :
    (((validate_candidate DocumentType.invoice (some candidate) false).is_valid ≡ true)
      ↔ IsComplete candidate)
    × ((has_hard_validation_errors (validate_candidate DocumentType.invoice (some candidate) false)
          ≡ false)
        ↔ IsComplete candidate)
    × ((validate_candidate DocumentType.invoice (some candidate) false).requires_review ≡ false)
validate_candidate-IsComplete_example =
    validate_candidate-IsComplete DocumentType.invoice candidate refl
