-- ===== src/Prelude/Json.antt =====
-- JSON documents as the rows keep them: lookup and assignment in an object and in a list.
use recon_ai.Prelude.{
  ℕ, zero, suc, ◌≡◌, refl, ap, Bool, true, Option, none, some, if◌then◌else◌, arith,
}
use recon_ai.Prelude.Text.{Text, text_eq, text_eq_iff}

-- A JSON document; an object is the list of its fields. A number is the text that Python prints for it.
mutual
  pub data Json : Type 0 where
    null : Json
    bool : Bool → Json
    num : Text → Json
    str : Text → Json
    arr : Items → Json
    obj : Fields → Json

  pub data Items : Type 0 where
    nil : Items
    cons : Json → Items → Items

  pub data Fields : Type 0 where
    end : Fields
    field : Text → Json → Fields → Fields

-- `d.get(key)`
unfoldable pub get_key : Text → Fields → Option Json
get_key k end = none
get_key k (field j v fs) = if text_eq k j then some v else get_key k fs

-- `d[key] = value`: in place, or at the end.
unfoldable pub put_key : Text → Json → Fields → Fields
put_key k v end = field k v end
put_key k v (field j w fs) = if text_eq k j then field j v fs else field j w (put_key k v fs)

unfoldable pub get_item : ℕ → Items → Option Json
get_item i nil = none
get_item zero (cons x xs) = some x
get_item (suc i) (cons x xs) = get_item i xs

-- `l[i] = value`, for an index in range.
unfoldable pub put_item : ℕ → Json → Items → Items
put_item i v nil = nil
put_item zero v (cons x xs) = cons v xs
put_item (suc i) v (cons x xs) = cons x (put_item i v xs)

pub text_eq_refl : (t : Text) → text_eq t t ≡ true
text_eq_refl t = (text_eq_iff t t).1 refl

-- What an assignment leaves under each key.
pub get_key-put_key :
    (k j : Text) (v : Json) (fs : Fields)
    → get_key j (put_key k v fs) ≡ (if text_eq j k then some v else get_key j fs)
unfolding get_key put_key
get_key-put_key k j v end = refl
get_key-put_key k j v (field i w fs) =
    let ih = get_key-put_key k j v fs in
    let ki = text_eq_iff k i in
    let ji = text_eq_iff j i in let jk = text_eq_iff j k in ground (arith, ih, ki, ji, jk)

-- What an assignment leaves at each index.
pub get_item-put_item_self :
    (i : ℕ) (v w : Json) (xs : Items)
    → get_item i xs ≡ some w
    → get_item i (put_item i v xs) ≡ some v
unfolding get_item put_item
get_item-put_item_self i v w nil h = cc
get_item-put_item_self zero v w (cons x xs) h = refl
get_item-put_item_self (suc i) v w (cons x xs) h = get_item-put_item_self i v w xs h

pub get_item-put_item_other :
    (i j : ℕ) (v : Json) (xs : Items) → (i ≡ j → ⊥) → get_item j (put_item i v xs) ≡ get_item j xs
unfolding get_item put_item
get_item-put_item_other i j v nil h = refl
get_item-put_item_other zero zero v (cons x xs) h = absurd (h refl)
get_item-put_item_other zero (suc j) v (cons x xs) h = refl
get_item-put_item_other (suc i) zero v (cons x xs) h = refl
get_item-put_item_other (suc i) (suc j) v (cons x xs) h =
    get_item-put_item_other i j v xs (λ e. h (ap suc e))
