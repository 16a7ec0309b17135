-- ===== src/Resolution/Contracts/Clean.antt =====
-- The texts that the parameter models accept.
use recon_ai.Prelude.{
  All, ℕ, suc, Bool, true, false, not, Option, none, some, List, [], ◌∷◌, ◌≡◌, refl, ap, subst, ◌∙◌,
  is_empty, leb, length, arith,
}
use recon_ai.Prelude.Text.{Text, is_space, strip}
use recon_ai.Prelude.Json.{Json, Items, null, bool, num, str, arr, obj, nil, cons}
use recon_ai.Prelude.Check.{ok, bind-ok, guard-ok, ok_injective}
use recon_ai.Prelude.Strip.{strip-again, length-strip}
use recon_ai.Resolution.Contracts.{
  invalid_parameters, text_within, nonblank, clean_text, required, given, optional, any_text,
  short_text, clean_fields, count_items, field_list,
}

-- A text that is not blank, has no space around it, and is not longer than the bound.
pub record IsClean (bound : ℕ) (t : Text) : Type 0 where
  pub nonempty : is_empty t ≡ false
  pub trimmed : strip is_space t ≡ t
  pub short : leb (length t) bound ≡ true

abbrev pub MaybeClean : ℕ → Option Text → Type 0
MaybeClean bound none = Unit
MaybeClean bound (some t) = IsClean bound t

not-false : {b : Bool} → not b ≡ false → b ≡ true
not-false {b = true} h = refl
not-false {b = false} h = cc

shorter :
    (bound : ℕ) (s : Text)
    → leb (length s) bound ≡ true
    → leb (length (strip is_space s)) bound ≡ true
shorter bound s h = let l = length-strip is_space s in ground (arith, h, l)

bounded-ok :
    (bound : ℕ) (j : Json) {t : Text} → text_within bound j ≡ ok t → leb (length t) bound ≡ true
bounded-ok bound (str s) h =
    let (fits, same) = guard-ok (not (leb (length s) bound)) invalid_parameters (ok s) h in
    subst (λ x. leb (length x) bound ≡ true) (ok_injective s _ same) (not-false fits)
bounded-ok bound null h = cc
bounded-ok bound (bool b) h = cc
bounded-ok bound (num n) h = cc
bounded-ok bound (arr js) h = cc
bounded-ok bound (obj fs) h = cc

clean_text-IsClean : (bound : ℕ) (j : Json) {t : Text} → clean_text bound j ≡ ok t → IsClean bound t
clean_text-IsClean bound j h =
    let (s, read, h1) = bind-ok (text_within bound j) _ h in
    let (filled, same) = guard-ok (is_empty (strip is_space s)) invalid_parameters _ h1 in
    subst (IsClean bound) (ok_injective _ _ same) (record {
      nonempty = filled;
      trimmed = strip-again is_space s;
      short = shorter bound s (bounded-ok bound j read);
    })

pub required-IsClean :
    (bound : ℕ) (o : Option Json) {t : Text} → required bound o ≡ ok t → IsClean bound t
required-IsClean bound none h = cc
required-IsClean bound (some j) h = clean_text-IsClean bound j h

given-MaybeClean :
    (bound : ℕ) (j : Json) {r : Option Text}
    → given (clean_text bound j) ≡ ok r
    → MaybeClean bound r
given-MaybeClean bound j h =
    let (t, read, same) = bind-ok (clean_text bound j) _ h in
    subst (MaybeClean bound) (ok_injective (some t) _ same) (clean_text-IsClean bound j read)

pub optional-MaybeClean :
    (bound : ℕ) (o : Option Json) {r : Option Text}
    → optional (clean_text bound) o ≡ ok r
    → MaybeClean bound r
optional-MaybeClean bound none h = subst (MaybeClean bound) (ok_injective none _ h) tt
optional-MaybeClean bound (some null) h = subst (MaybeClean bound) (ok_injective none _ h) tt
optional-MaybeClean bound (some (str s)) h = given-MaybeClean bound (str s) h
optional-MaybeClean bound (some (bool b)) h = cc
optional-MaybeClean bound (some (num n)) h = cc
optional-MaybeClean bound (some (arr js)) h = cc
optional-MaybeClean bound (some (obj fs)) h = cc

clean_fields-AllClean :
    (js : Items) {ts : List Text}
    → clean_fields js ≡ ok ts
    → All (IsClean 128) ts × (length ts ≡ count_items js)
unfolding clean_fields
clean_fields-AllClean nil {ts} h =
    subst (λ xs. All (IsClean 128) xs × (length xs ≡ 0)) (ok_injective [] ts h) (tt, refl)
clean_fields-AllClean (cons j js) {ts} h =
    let (s, read, h1) = bind-ok (any_text j) _ h in
    let (t, filled, h2) = bind-ok (nonblank (strip is_space s)) _ h1 in
    let (u, fits, h3) = bind-ok (short_text t) _ h2 in
    let (us, later, h4) = bind-ok (clean_fields js) _ h3 in
    let (nonempty, is_strip) = guard-ok (is_empty (strip is_space s)) invalid_parameters _ filled in
    let (short, is_t) = guard-ok (not (leb (length t) 128)) invalid_parameters _ fits in
    let t_strip : strip is_space s ≡ t = ok_injective _ _ is_strip in
    let u_t : t ≡ u = ok_injective _ _ is_t in
    let (all_clean, count) = clean_fields-AllClean js later in
    let clean : IsClean 128 t = record {
      nonempty = subst (λ x. is_empty x ≡ false) t_strip nonempty;
      trimmed = subst (λ x. strip is_space x ≡ x) t_strip (strip-again is_space s);
      short = not-false short;
    } in
    subst (λ xs. All (IsClean 128) xs × (length xs ≡ suc (count_items js)))
      (ok_injective (u ∷ us) ts h4) ((subst (IsClean 128) u_t clean, all_clean), ap suc count)

pub field_list-AllClean :
    (o : Option Json) {ts : List Text}
    → field_list o ≡ ok ts
    → All (IsClean 128) ts × (leb (length ts) 32 ≡ true)
field_list-AllClean none {ts} h =
    subst (λ xs. All (IsClean 128) xs × (leb (length xs) 32 ≡ true)) (ok_injective [] ts h)
      (tt, refl)
field_list-AllClean (some (arr js)) {ts} h =
    let (few, read) = guard-ok (not (leb (count_items js) 32)) invalid_parameters _ h in
    let (all_clean, count) = clean_fields-AllClean js read in
    (all_clean, ap (λ n. leb n 32) count ∙ not-false few)
field_list-AllClean (some null) h = cc
field_list-AllClean (some (bool b)) h = cc
field_list-AllClean (some (num n)) h = cc
field_list-AllClean (some (str s)) h = cc
field_list-AllClean (some (obj fs)) h = cc
