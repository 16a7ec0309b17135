-- ===== src/Reconciliation/Variance/Scale.antt =====
-- The scale of a quotient: the search for it ends within its fuel.
use recon_ai.Prelude.{
  ℕ, zero, suc, ◌+◌, ◌*◌, ◌^◌, ◌≤◌, true, ◌≡◌, sym, ap, subst, ◌∙◌, leb, Bool-cases, inl, inr,
  arith,
}
use recon_ai.Reconciliation.Variance.{scale_from}
use native.Mathlib.Nat.{pow-suc, pow-le-pow_right}

plus_zero : (k : ℕ) → k + 0 ≡ k
plus_zero k = omega arith

left_zero : (k : ℕ) → k ≡ 0 + k
left_zero k = omega arith

plus_suc : (k f : ℕ) → k + suc f ≡ suc k + f
plus_suc k f = omega arith

-- A search whose last scale gives enough digits finds one that does.
scale_from-reaches :
    (f k n d : ℕ)
    → leb (10 ^ 27 * d) (n * 10 ^ (k + f)) ≡ true
    → leb (10 ^ 27 * d) (n * 10 ^ scale_from f k n d) ≡ true
unfolding scale_from
scale_from-reaches zero k n d h = sym (ap (λ j. leb (10 ^ 27 * d) (n * 10 ^ j)) (plus_zero k)) ∙ h
scale_from-reaches (suc f) k n d h = elim (Bool-cases (leb (10 ^ 27 * d) (n * 10 ^ k))) [
  | inl e ↦ rw (e, scale_from) e
  | inr e ↦
      rw (e, scale_from)
        (scale_from-reaches f (suc k) n d
          (sym (ap (λ j. leb (10 ^ 27 * d) (n * 10 ^ j)) (plus_suc k f)) ∙ h))
]

step_bound : (d y z : ℕ) → 10 ^ 27 * d ≤ y → 10 ^ 27 ≤ y → z ≡ y * 10 → 10 ^ 27 * suc d ≤ z
step_bound d y z h big e = omega (arith, h, big, e)

shift_suc : (d : ℕ) → 10 ^ (28 + suc d) ≡ 10 ^ (28 + d) * 10
shift_suc d = ap (λ j. 10 ^ j) (up d) ∙ pow-suc 10 (28 + d)
  where
    up : (d : ℕ) → 28 + suc d ≡ suc (28 + d)
    up d = omega arith

big_enough : (d : ℕ) → 10 ^ 27 ≤ 10 ^ (28 + d)
big_enough d = pow-le-pow_right {n = 10} (omega arith) {i = 27} {j = 28 + d} (omega arith)

divisor_bound : (d : ℕ) → 10 ^ 27 * d ≤ 10 ^ (28 + d)
divisor_bound zero = omega arith
divisor_bound (suc d) =
    step_bound d (10 ^ (28 + d)) (10 ^ (28 + suc d)) (divisor_bound d) (big_enough d) (shift_suc d)

times_suc : (m y : ℕ) → y ≤ suc m * y
times_suc m y = omega arith

enough : (a b c : ℕ) → a ≤ b → b ≤ c → leb a c ≡ true
enough a b c p q = ground (arith, p, q)

-- For a positive numerator, the scale the search of a division gives makes the scaled numerator at least
-- 10 ^ 27 times the denominator: the fuel is enough for the 28 digits of the decimal context.
pub scale_from-enough :
    (m d : ℕ) → leb (10 ^ 27 * d) (suc m * 10 ^ scale_from (28 + d) 0 (suc m) d) ≡ true
scale_from-enough m d = scale_from-reaches (28 + d) 0 (suc m) d (
    enough (10 ^ 27 * d) (10 ^ (28 + d)) (suc m * 10 ^ (0 + (28 + d))) (divisor_bound d) (
      subst (λ j. 10 ^ (28 + d) ≤ suc m * 10 ^ j) (left_zero (28 + d))
        (times_suc m (10 ^ (28 + d)))))
