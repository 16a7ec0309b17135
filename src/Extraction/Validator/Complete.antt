-- ===== src/Extraction/Validator/Complete.antt =====
-- Validation of a candidate finds nothing exactly where the candidate is complete.
use recon_ai.Prelude.{
  ℕ, Bool, true, false, not, ◌&&◌, ◌||◌, Option, none, some, List, [], ◌∷◌, ◌++◌, ◌≡◌, refl, sym,
  ap, ◌∙◌, ◌↔◌, any, is_empty, is_some, All, arith,
}
use recon_ai.Prelude.Int.{ℤ, pos, ltb_ℤ}
use recon_ai.Prelude.Text.{Text}
use recon_ai.Domain.{DocumentType}
use recon_ai.Extraction.Normalizer.{is_missing_value}
use recon_ai.Extraction.Validator.{
  CandidateLine, Candidate, purchase_order, goods_receipt, invoice, IssueCode, ValidationIssue,
  is_hard, is_for_review, issue_if, missing_identifier, absent, bad_quantity, bad_price,
  validate_lines, validate_po, validate_grn, validate_invoice, issues_of, conclude, ocr_issues,
  validate_candidate, has_hard_validation_errors, invalid_quantity, invalid_price,
}

-- An identifier that names something, a quantity above zero, a price that is not below it.
abbrev pub IsNamed : Option Text → Type 0
IsNamed t = is_missing_value t ≡ false

abbrev pub IsPositive : Option ℤ → Type 0
IsPositive none = ⊥
IsPositive (some q) = ltb_ℤ (pos 0) q ≡ true

abbrev pub IsNotNegative : Option ℤ → Type 0
IsNotNegative none = ⊥
IsNotNegative (some p) = ltb_ℤ p (pos 0) ≡ false

abbrev pub IsPriced : CandidateLine → Type 0
IsPriced l = IsPositive l.quantity × IsNotNegative l.unit_price

abbrev pub IsCounted : CandidateLine → Type 0
IsCounted l = IsPositive l.quantity

-- What authoritative rows need of a candidate.
abbrev pub IsComplete : Candidate → Type 0
IsComplete (purchase_order c) =
    IsNamed c.po_number
    × (IsNamed c.vendor_name
        × ((is_some c.order_date ≡ true) × ((is_empty c.lines ≡ false) × All IsPriced c.lines)))
IsComplete (goods_receipt c) =
    IsNamed c.grn_number
    × ((is_some c.receipt_date ≡ true) × ((is_empty c.lines ≡ false) × All IsCounted c.lines))
IsComplete (invoice c) =
    IsNamed c.invoice_number
    × (IsNamed c.vendor_name
        × ((is_some c.invoice_date ≡ true) × ((is_empty c.lines ≡ false) × All IsPriced c.lines)))

any-append {ℓ} :
    {A : Type ℓ} (p : A → Bool) (xs ys : List A) → any p (xs ++ ys) ≡ (any p xs || any p ys)
any-append p [] ys = refl
any-append p (x ∷ xs) ys = let ih = any-append p xs ys in ground (arith, ih)

hard_if : (b : Bool) (c : IssueCode) → any is_hard (issue_if b c) ≡ b
unfolding issue_if
hard_if true c = refl
hard_if false c = refl

review_if : (b : Bool) (c : IssueCode) → any is_for_review (issue_if b c) ≡ false
unfolding issue_if
review_if true c = refl
review_if false c = refl

-- The issues of a check in front of others.
hard_first :
    (b : Bool) (c : IssueCode) (issues : List ValidationIssue)
    → any is_hard (issue_if b c ++ issues) ≡ (b || any is_hard issues)
hard_first b c issues =
    any-append is_hard (issue_if b c) issues ∙ ap (λ x. x || any is_hard issues) (hard_if b c)

review_first :
    (b : Bool) (c : IssueCode) (issues : List ValidationIssue)
    → any is_for_review (issue_if b c ++ issues) ≡ any is_for_review issues
review_first b c issues =
    any-append is_for_review (issue_if b c) issues
    ∙ ap (λ x. x || any is_for_review issues) (review_if b c)

lines_not_reviewed :
    (lines : List CandidateLine) (r : Bool) → any is_for_review (validate_lines lines r) ≡ false
unfolding validate_lines
lines_not_reviewed [] r = refl
lines_not_reviewed (l ∷ lines) r = simp review_first (lines_not_reviewed lines r)

not_reviewed : (c : Candidate) → any is_for_review (issues_of c) ≡ false
unfolding issues_of validate_po validate_grn validate_invoice
not_reviewed (purchase_order c) = simp review_first (lines_not_reviewed c.lines true)
not_reviewed (goods_receipt c) = simp review_first (lines_not_reviewed c.lines false)
not_reviewed (invoice c) = simp review_first (lines_not_reviewed c.lines true)

-- Disjunctions that are false, part by part.
or-false : (a b : Bool) → ((a || b) ≡ false) ↔ ((a ≡ false) × (b ≡ false))
or-false true b = (λ h. cc, λ h. h.0)
or-false false b = (λ h. (refl, h), λ h. h.1)

IsPositive-iff : (q : Option ℤ) → (bad_quantity q ≡ false) ↔ IsPositive q
unfolding bad_quantity
IsPositive-iff none = (λ h. cc, λ h. absurd h)
IsPositive-iff (some q) = (λ h. ground (arith, h), λ h. ground (arith, h))

IsNotNegative-iff : (p : Option ℤ) → (bad_price p ≡ false) ↔ IsNotNegative p
unfolding bad_price
IsNotNegative-iff none = (λ h. cc, λ h. absurd h)
IsNotNegative-iff (some p) = (λ h. h, λ h. h)

IsPriced-iff :
    (lines : List CandidateLine)
    → (any is_hard (validate_lines lines true) ≡ false) ↔ All IsPriced lines
unfolding validate_lines
IsPriced-iff [] = (λ h. tt, λ h. refl)
IsPriced-iff (l ∷ lines) =
    let ih = IsPriced-iff lines in
    let q = IsPositive-iff l.quantity in
    let p = IsNotNegative-iff l.unit_price in
    let split : any is_hard (validate_lines (l ∷ lines) true) ≡ (
        bad_quantity l.quantity
        || (bad_price l.unit_price || any is_hard (validate_lines lines true))) =
      hard_first (bad_quantity l.quantity) invalid_quantity _
      ∙ ap (λ x. bad_quantity l.quantity || x)
          (hard_first (bad_price l.unit_price) invalid_price _) in
    (
      λ h.
          let (a, rest) = (or-false _ _).0 (sym split ∙ h) in
          let (b, rest') = (or-false _ _).0 rest in ((q.0 a, p.0 b), ih.0 rest'),
      λ h. split ∙ (or-false _ _).1 (q.1 (h.0.0), (or-false _ _).1 (p.1 (h.0.1), ih.1 (h.1))),
    )

IsCounted-iff :
    (lines : List CandidateLine)
    → (any is_hard (validate_lines lines false) ≡ false) ↔ All IsCounted lines
unfolding validate_lines
IsCounted-iff [] = (λ h. tt, λ h. refl)
IsCounted-iff (l ∷ lines) =
    let ih = IsCounted-iff lines in
    let q = IsPositive-iff l.quantity in
    let split : any is_hard (validate_lines (l ∷ lines) false)
        ≡ (bad_quantity l.quantity || any is_hard (validate_lines lines false)) =
      hard_first (bad_quantity l.quantity) invalid_quantity _
      ∙ ap (λ x. bad_quantity l.quantity || x) (hard_first false invalid_price _) in
    (
      λ h. let (a, rest) = (or-false _ _).0 (sym split ∙ h) in (q.0 a, ih.0 rest),
      λ h. split ∙ (or-false _ _).1 (q.1 (h.0), ih.1 (h.1)),
    )

-- The issues of a check in front of others are none exactly where the check and the others pass.
first_iff :
    {P Q : Type 0} (b : Bool) (c : IssueCode) (issues : List ValidationIssue)
    → (b ≡ false) ↔ P
    → (any is_hard issues ≡ false) ↔ Q
    → (any is_hard (issue_if b c ++ issues) ≡ false) ↔ (P × Q)
first_iff b c issues p q = (
  λ h. let (x, rest) = (or-false _ _).0 (sym (hard_first b c issues) ∙ h) in (p.0 x, q.0 rest),
  λ h. hard_first b c issues ∙ (or-false _ _).1 (p.1 (h.0), q.1 (h.1)),
)

as_it_is : {P : Type 0} → P ↔ P
as_it_is = (λ h. h, λ h. h)

present_iff : (o : Option ℕ) → (absent o ≡ false) ↔ (is_some o ≡ true)
unfolding absent
present_iff none = (λ h. cc, λ h. cc)
present_iff (some n) = (λ h. refl, λ h. refl)

IsComplete-iff : (c : Candidate) → (any is_hard (issues_of c) ≡ false) ↔ IsComplete c
unfolding issues_of validate_po validate_grn validate_invoice missing_identifier
IsComplete-iff (purchase_order c) = first_iff _ _ _ as_it_is (
    first_iff _ _ _ as_it_is (
      first_iff _ _ _ (present_iff c.order_date) (first_iff _ _ _ as_it_is (IsPriced-iff c.lines))))
IsComplete-iff (goods_receipt c) = first_iff _ _ _ as_it_is (
    first_iff _ _ _ (present_iff c.receipt_date) (first_iff _ _ _ as_it_is (IsCounted-iff c.lines)))
IsComplete-iff (invoice c) = first_iff _ _ _ as_it_is (
    first_iff _ _ _ as_it_is (
      first_iff _ _ _ (present_iff c.invoice_date)
        (first_iff _ _ _ as_it_is (IsPriced-iff c.lines))))

abbrev pub is_known : DocumentType → Bool
is_known DocumentType.unknown = false
is_known _ = true

known_result :
    (d : DocumentType) (c : Candidate)
    → is_known d ≡ true
    → validate_candidate d (some c) false ≡ conclude false (issues_of c)
unfolding validate_candidate ocr_issues
known_result DocumentType.po c h = refl
known_result DocumentType.grn c h = refl
known_result DocumentType.invoice c h = refl
known_result DocumentType.unknown c h = cc

valid_iff :
    (hard review : Bool) → review ≡ false → ((not hard && not review) ≡ true) ↔ (hard ≡ false)
valid_iff true false h = (λ e. cc, λ e. cc)
valid_iff false false h = (λ e. refl, λ e. refl)
valid_iff hard true h = cc

-- Without warnings of the extraction, a candidate of a known type is valid exactly where it is complete:
-- its identifiers named, its date there, and at least one line, each with a positive quantity and, on
-- orders and invoices, a price that is not negative. Where it is not, there is an error, and review is
-- never asked for.
pub validate_candidate-IsComplete :
    (d : DocumentType) (c : Candidate)
    → is_known d ≡ true
    → (((validate_candidate d (some c) false).is_valid ≡ true) ↔ IsComplete c)
      × ((has_hard_validation_errors (validate_candidate d (some c) false) ≡ false) ↔ IsComplete c)
      × ((validate_candidate d (some c) false).requires_review ≡ false)
unfolding conclude has_hard_validation_errors
validate_candidate-IsComplete d c h =
    let result = known_result d c h in
    let valid =
      valid_iff (any is_hard (issues_of c)) (any is_for_review (issues_of c)) (not_reviewed c) in
    let complete = IsComplete-iff c in
    (
      (
        λ e. complete.0 (valid.0 (sym (ap (λ r. r.is_valid) result) ∙ e)),
        λ e. ap (λ r. r.is_valid) result ∙ valid.1 (complete.1 e),
      ),
      (
        λ e. complete.0 (sym (ap (λ r. any is_hard r.issues) result) ∙ e),
        λ e. ap (λ r. any is_hard r.issues) result ∙ complete.1 e,
      ),
      ap (λ r. r.requires_review) result ∙ not_reviewed c,
    )
