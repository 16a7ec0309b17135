-- ===== src/Prelude/Table.antt =====
-- Tables as lists of rows: the row that a query finds, and rows after a write.
use recon_ai.Prelude.{
  All, ap, subst, Bool, true, false, not, ◌&&◌, ◌||◌, List, [], ◌∷◌, ◌++◌, Option, none, some, ◌≡◌,
  refl, ◌∙◌, ◌⊎◌, inl, inr, if◌then◌else◌, any, filter, is_empty, Bool-cases, arith,
}

abbrev pub find {ℓ} : {A : Type ℓ} → (A → Bool) → List A → Option A
find p [] = none
find p (x ∷ xs) = if p x then some x else find p xs

abbrev pub update_where {ℓ} : {A : Type ℓ} → (A → Bool) → (A → A) → List A → List A
update_where p f [] = []
update_where p f (x ∷ xs) = (if p x then f x else x) ∷ update_where p f xs

abbrev pub opt_map {ℓ} : {A : Type ℓ} → (A → A) → Option A → Option A
opt_map f none = none
opt_map f (some x) = some (f x)

module _ {A : Type 0} (p : A → Bool) where
  either-some :
      (b : Bool) (x y : A) (o : Option A)
      → (if b then some x else o) ≡ some y
      → ((b ≡ true) × (x ≡ y)) ⊎ ((b ≡ false) × (o ≡ some y))
  either-some true x y o h = inl (refl, cc)
  either-some false x y o h = inr (refl, h)

  pub find-holds : (xs : List A) (y : A) → find p xs ≡ some y → p y ≡ true
  find-holds [] y h = cc
  find-holds (x ∷ xs) y h = elim (either-some (p x) x y _ h) [
    | inl (here, same) ↦ rw same at here
    | inr (b, later) ↦ find-holds xs y later
  ]

  pub find-any : (xs : List A) (y : A) → find p xs ≡ some y → any p xs ≡ true
  find-any [] y h = cc
  find-any (x ∷ xs) y h = elim (either-some (p x) x y _ h) [
    | inl (here, same) ↦ rw here
    | inr (b, later) ↦ let ih = find-any xs y later in ground (arith, ih)
  ]

  pub find-append : (xs ys : List A) → any p xs ≡ false → find p (xs ++ ys) ≡ find p ys
  find-append [] ys h = refl
  find-append (x ∷ xs) ys h =
      let here : p x ≡ false = ground (arith, h) in
      let rest : any p xs ≡ false = ground (arith, h) in (rw here) ∙ find-append xs ys rest

  module _ (f : A → A) (same : (x : A) → p (f x) ≡ p x) where
    -- The rows that are looked up are those that are written.
    pub find-update_where : (xs : List A) → find p (update_where p f xs) ≡ opt_map f (find p xs)
    find-update_where [] = refl
    find-update_where (x ∷ xs) = elim (Bool-cases (p x)) [
      | inl here ↦ rw (here, same x, here)
      | inr not_here ↦ rw (not_here, not_here) (find-update_where xs)
    ]

    either-same : (b : Bool) (x : A) → p (if b then f x else x) ≡ p x
    either-same true x = same x
    either-same false x = refl

    pub any-update_where : (q : A → Bool) (xs : List A) → any p (update_where q f xs) ≡ any p xs
    any-update_where q [] = refl
    any-update_where q (x ∷ xs) = rw (either-same (q x) x, any-update_where q xs)

  empty-kept :
      (b : Bool) (x : A) (l : List A) → is_empty (if b then x ∷ l else l) ≡ (not b && is_empty l)
  empty-kept true x l = refl
  empty-kept false x l = refl

  any-kept :
      (b : Bool) (x : A) (l : List A) → any p (if b then x ∷ l else l) ≡ (b && p x || any p l)
  any-kept true x l = refl
  any-kept false x l = refl

  pub is_empty-filter : (xs : List A) → is_empty (filter p xs) ≡ not (any p xs)
  is_empty-filter [] = refl
  is_empty-filter (x ∷ xs) =
      let ih = is_empty-filter xs in
      let step = empty-kept (p x) x (filter p xs) in ground (arith, ih, step)

  pub any-filter : (q : A → Bool) (xs : List A) → any p (filter q xs) ≡ any (λ x. q x && p x) xs
  any-filter q [] = refl
  any-filter q (x ∷ xs) =
      let ih = any-filter q xs in
      let step = any-kept (q x) x (filter q xs) in ground (arith, ih, step)

  -- A row that is written in place of those that a query finds.
  pub find-put_row :
      (y : A)
      → p y ≡ true
      → (xs : List A) → find p (update_where p (λ x. y) xs) ≡ opt_map (λ x. y) (find p xs)
  find-put_row y here [] = refl
  find-put_row y here (x ∷ xs) = elim (Bool-cases (p x)) [
    | inl e ↦ rw (e, here)
    | inr e ↦ rw (e, e) (find-put_row y here xs)
  ]

  pub find-put_row_other :
      (q : A → Bool) (y : A)
      → p y ≡ false
      → ((x : A) → q x ≡ true → p x ≡ false)
      → (xs : List A) → find p (update_where q (λ x. y) xs) ≡ find p xs
  find-put_row_other q y away apart [] = refl
  find-put_row_other q y away apart (x ∷ xs) = elim (Bool-cases (q x)) [
    | inl e ↦ rw (e, away, apart x e) (find-put_row_other q y away apart xs)
    | inr e ↦ rw e (ap (λ o. if p x then some x else o) (find-put_row_other q y away apart xs))
  ]

  -- A row that another query writes, where the row that was found is among those written.
  pub find-put_row_found :
      (q : A → Bool) (y x : A)
      → p y ≡ true
      → q x ≡ true
      → (xs : List A) → find p xs ≡ some x
      → find p (update_where q (λ z. y) xs) ≡ some y
  find-put_row_found q y x here written [] h = cc
  find-put_row_found q y x here written (z ∷ xs) h = elim (Bool-cases (q z)) [
    | inl e ↦ rw (e, here)
    | inr e ↦ elim (Bool-cases (p z)) [
      | inl f ↦
          let first : some z ≡ some x = rw f at h in
          let same : z ≡ x = cc in let bad : q x ≡ false = rw same at e in cc
      | inr f ↦ rw (e, f) (find-put_row_found q y x here written xs (rw f at h))
    ]
  ]

  pub filter-append_last :
      (xs : List A) (y : A) → p y ≡ true → filter p (xs ++ y ∷ []) ≡ filter p xs ++ y ∷ []
  filter-append_last [] y h = rw h
  filter-append_last (x ∷ xs) y h = elim (Bool-cases (p x)) [
    | inl e ↦ rw e (ap (λ l. x ∷ l) (filter-append_last xs y h))
    | inr e ↦ rw e (filter-append_last xs y h)
  ]

  pub find-append_some : (xs ys : List A) (y : A) → find p xs ≡ some y → find p (xs ++ ys) ≡ some y
  find-append_some [] ys y h = cc
  find-append_some (x ∷ xs) ys y h = elim (Bool-cases (p x)) [
    | inl e ↦ rw e (rw e at h)
    | inr e ↦ rw e (find-append_some xs ys y (rw e at h))
  ]

  pub find-append_none : (xs ys : List A) → find p xs ≡ none → find p (xs ++ ys) ≡ find p ys
  find-append_none [] ys h = refl
  find-append_none (x ∷ xs) ys h = elim (Bool-cases (p x)) [
    | inl e ↦ let bad : some x ≡ none = rw e at h in cc
    | inr e ↦ rw e (find-append_none xs ys (rw e at h))
  ]

  pub any-append_left : (xs ys : List A) → any p xs ≡ true → any p (xs ++ ys) ≡ true
  any-append_left [] ys h = cc
  any-append_left (x ∷ xs) ys h = let ih = any-append_left xs ys in ground (arith, h, ih)

  pub any-append_right : (xs ys : List A) → any p ys ≡ true → any p (xs ++ ys) ≡ true
  any-append_right [] ys h = h
  any-append_right (x ∷ xs) ys h = let ih = any-append_right xs ys h in ground (arith, ih)

-- A predicate of every row, after a write and at a row that is found.
module _ {A : Type 0} (P : A → Type 0) (p : A → Bool) where
  pub All-put_row :
      (f : A → A)
      → ((x : A) → P x → P (f x))
      → (xs : List A) → All P xs
      → All P (update_where p f xs)
  All-put_row f keep [] h = tt
  All-put_row f keep (x ∷ xs) h = (written (p x), All-put_row f keep xs h.1)
    where
      written : (b : Bool) → P (if b then f x else x)
      written true = keep x (h.0)
      written false = h.0

  pub All-find : (xs : List A) (y : A) → All P xs → find p xs ≡ some y → P y
  All-find [] y h e = cc
  All-find (x ∷ xs) y h e = elim (Bool-cases (p x)) [
    | inl here ↦ subst P (first here) (h.0)
    | inr not_here ↦ All-find xs y (h.1) (rw not_here at e)
  ]
    where
      first : p x ≡ true → x ≡ y
      first here = let same : some x ≡ some y = rw here at e in cc

pub All-map :
    {A : Type 0} (P Q : A → Type 0) → ((x : A) → P x → Q x) → (xs : List A) → All P xs → All Q xs
All-map P Q f [] h = tt
All-map P Q f (x ∷ xs) h = (f x (h.0), All-map P Q f xs (h.1))
