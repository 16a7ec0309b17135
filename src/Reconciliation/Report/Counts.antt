-- ===== src/Reconciliation/Report/Counts.antt =====
-- The counts in the summary of a run.
use recon_ai.Prelude.{
  ℕ, suc, ◌+◌, Bool, true, false, List, [], ◌∷◌, ◌≡◌, refl, sym, ap, ◌∙◌, inl, inr, if◌then◌else◌,
  length, filter, ◌==◌, Bool-cases, arith,
}
use recon_ai.Domain.{ExceptionType}
use recon_ai.Reconciliation.Schemas.{ExceptionDraft}
use recon_ai.Reconciliation.Report.{type_index, add_type, count_by_type}

abbrev pub is_of : ExceptionType → ExceptionDraft → Bool
is_of t d = type_index t == type_index d.exception_type

-- The count of a type, zero where it has no entry.
abbrev pub count_of : ExceptionType → List (ExceptionType × ℕ) → ℕ
count_of t [] = 0
count_of t ((u, n) ∷ m) = if type_index t == type_index u then n else count_of t m

counted-here :
    (i j k n c : ℕ)
    → (j == k) ≡ true
    → (if i == k then suc n else c)
      ≡ (if i == j then suc (if i == k then n else c) else (if i == k then n else c))
counted-here i j k n c e = ground (arith, e)

counted-later :
    (i j k n c x : ℕ)
    → (j == k) ≡ false
    → x ≡ (if i == j then suc c else c)
    → (if i == k then n else x)
      ≡ (if i == j then suc (if i == k then n else c) else (if i == k then n else c))
counted-later i j k n c x e ih = ground (arith, e, ih)

counted-first : (i j : ℕ) → (if i == j then 1 else 0) ≡ (if i == j then suc 0 else 0)
counted-first i j = refl

count_of-add_type :
    (t u : ExceptionType) (m : List (ExceptionType × ℕ))
    → count_of t (add_type u m)
      ≡ (if type_index t == type_index u then suc (count_of t m) else count_of t m)
unfolding add_type
count_of-add_type t u [] = counted-first (type_index t) (type_index u)
count_of-add_type t u ((v, n) ∷ m) = elim (Bool-cases (type_index u == type_index v)) [
  | inl here ↦ rw here (counted-here (type_index t) (type_index u) (type_index v) n _ here)
  | inr later ↦ rw later (
      counted-later (type_index t) (type_index u) (type_index v) n _ _ later
        (count_of-add_type t u m))
]

counted-total :
    (b : Bool) (c f r added : ℕ)
    → r ≡ added + f
    → added ≡ (if b then suc c else c)
    → r ≡ c + (if b then suc f else f)
counted-total b c f r added e a = ground (arith, e, a)

length-kept :
    (b : Bool) (d : ExceptionDraft) (l : List ExceptionDraft)
    → length (if b then d ∷ l else l) ≡ (if b then suc (length l) else length l)
length-kept true d l = refl
length-kept false d l = refl

pub count_of-count_by_type :
    (t : ExceptionType) (ds : List ExceptionDraft) (m : List (ExceptionType × ℕ))
    → count_of t (count_by_type ds m) ≡ count_of t m + length (filter (is_of t) ds)
unfolding count_by_type
count_of-count_by_type t [] m = ground arith
count_of-count_by_type t (d ∷ ds) m =
    counted-total (is_of t d) (count_of t m) (length (filter (is_of t) ds)) _ _
      (count_of-count_by_type t ds (add_type d.exception_type m))
      (count_of-add_type t d.exception_type m)
    ∙ ap (λ n. count_of t m + n) (sym (length-kept (is_of t d) d (filter (is_of t) ds)))
