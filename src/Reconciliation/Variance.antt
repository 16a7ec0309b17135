-- ===== src/Reconciliation/Variance.antt =====
-- app/reconciliation/rules.py: percentage variances and the two tolerance tests. A quotient is
-- rounded half to even at 28 significant digits, as Python's default decimal context does, for
-- quotients below 10^28; the other operations are exact at the columns' precision.
pub mod Scale
use recon_ai.Prelude.{
  ℕ, zero, suc, ◌+◌, ◌*◌, ◌/◌, ◌%◌, ◌^◌, Bool, true, false, ◌&&◌, ◌||◌, ltb, leb, ◌==◌,
  if◌then◌else◌,
}
use recon_ai.Prelude.Int.{pos, negsuc, ◌+ℤ◌, ◌-ℤ◌, ltb_ℤ, eqb_ℤ, abs_ℕ}
use recon_ai.Reconciliation.Schemas.{Decimal, Ratio}

-- The least scale, from `k` on, at which `n / d` has 28 digits before the point.
unfoldable pub scale_from : ℕ → ℕ → ℕ → ℕ → ℕ
scale_from zero k n d = k
scale_from (suc f) k n d = elim (leb (10 ^ 27 * d) (n * 10 ^ k)) [
  | true ↦ k
  | false ↦ scale_from f (suc k) n d
]

-- `n / d` to the nearest whole number, ties to even.
unfoldable pub div_half_even : ℕ → ℕ → ℕ
div_half_even n d =
    let q = n / d in let r = n % d in if ltb d (2 * r) || 2 * r == d && q % 2 == 1 then q + 1 else q

-- `n / d` in the decimal context. The scale is at most 28 + d, so the fuel is enough.
unfoldable pub div_context : ℕ → ℕ → Ratio
div_context zero d = record { coefficient = 0; scale = 0 }
div_context (suc n) d =
    let k = scale_from (28 + d) 0 (suc n) d in
    record { coefficient = div_half_even (suc n * 10 ^ k) d; scale = k }

unfoldable pub percent_variance : Decimal → Decimal → Ratio
percent_variance expected actual =
    if eqb_ℤ expected (pos 0)
    then (if eqb_ℤ actual (pos 0)
        then record { coefficient = 0; scale = 0 }
        else record { coefficient = 100; scale = 0 })
    else (let q = div_context (abs_ℕ (actual -ℤ expected)) (abs_ℕ expected) in
        record { coefficient = q.coefficient * 100; scale = q.scale })

-- `ratio > d`
unfoldable pub ratio_gt : Ratio → Decimal → Bool
ratio_gt r (pos t) = ltb (t * 10 ^ r.scale) (r.coefficient * 10 ^ 4)
ratio_gt r (negsuc t) = true

unfoldable pub exceeds_percent_tolerance : Decimal → Decimal → Decimal → Bool
exceeds_percent_tolerance expected actual tolerance_percent =
    ratio_gt (percent_variance expected actual) tolerance_percent

unfoldable pub exceeds_quantity_tolerance : Decimal → Decimal → Decimal → Bool
exceeds_quantity_tolerance left right tolerance = ltb_ℤ (right +ℤ tolerance) left
