-- ===== src/Base/Sublist.antt =====
-- A list with some of its members left out.
use mathlib.Core.Path.{◌≡◌, refl}
use mathlib.Core.Logic.{◌⊎◌, inl, inr}
use mathlib.Core.List.{List, [], ◌∷◌, ◌++◌}

-- The first list is the second one with some of its members left out.
pub data Sublist {ℓ} {A : Type ℓ} : List A → List A → Type ℓ where
  none_left : Sublist [] []
  left_out : {x : A} {xs ys : List A} → Sublist xs ys → Sublist xs (x ∷ ys)
  kept : {x : A} {xs ys : List A} → Sublist xs ys → Sublist (x ∷ xs) (x ∷ ys)

module _ {ℓ} {A : Type ℓ} where
  pub Sublist-nil : (ys : List A) → Sublist [] ys
  Sublist-nil [] = none_left
  Sublist-nil (y ∷ ys) = left_out (Sublist-nil ys)

  pub Sublist-append :
      {xs ys us vs : List A} → Sublist xs ys → Sublist us vs → Sublist (xs ++ us) (ys ++ vs)
  Sublist-append none_left t = t
  Sublist-append (left_out s) t = left_out (Sublist-append s t)
  Sublist-append (kept s) t = kept (Sublist-append s t)

  pub Sublist-refl : (xs : List A) → Sublist xs xs
  Sublist-refl [] = none_left
  Sublist-refl (x ∷ xs) = kept (Sublist-refl xs)

  Sublist-trans : {ys zs xs : List A} → Sublist xs ys → Sublist ys zs → Sublist xs zs
  Sublist-trans s none_left = s
  Sublist-trans s (left_out t) = left_out (Sublist-trans s t)
  Sublist-trans (left_out s) (kept t) = left_out (Sublist-trans s t)
  Sublist-trans (kept s) (kept t) = kept (Sublist-trans s t)

  -- From the second part of a list something is left out.
  pub Sublist-behind :
      (xs : List A) {ys us zs : List A}
      → Sublist us ys
      → Sublist (xs ++ ys) zs
      → Sublist (xs ++ us) zs
  Sublist-behind xs s t = Sublist-trans (Sublist-append (Sublist-refl xs) s) t

  pub Sublist_of_nil : {xs : List A} → Sublist xs [] → xs ≡ []
  Sublist_of_nil none_left = refl

  pub Sublist_of_cons :
      {xs ys : List A} {y : A}
      → Sublist xs (y ∷ ys)
      → Sublist xs ys ⊎ ((us : List A) × (xs ≡ y ∷ us) × Sublist us ys)
  Sublist_of_cons (left_out s) = inl s
  Sublist_of_cons (kept {xs = us} s) = inr (us, refl, s)
