-- ===== src/Prelude/Lists.antt =====
-- Lists measured by native numbers, predicates on all items, and the pieces of slices that Go's
-- `append` under a test adds.
use Prim.Native.Nat.{ℕ, suc}
use mathlib.Core.Path.{◌≡◌, refl, subst, sym}
use mathlib.Core.Logic.{◌⊎◌, inl, inr}
use mathlib.Core.Bool.{Bool, true, false}
use mathlib.Core.Option.{Option, none, some}
use mathlib.Core.List.{List, [], ◌∷◌, ◌++◌}

module _ {ℓ} {A : Type ℓ} where
  abbrev pub length : List A → ℕ
  length [] = 0
  length (x ∷ xs) = suc (length xs)

module _ {ℓ κ} {A : Type ℓ} (P : A → Type κ) where
  abbrev pub All : List A → Type κ
  All [] = Unit
  All (x ∷ xs) = P x × All xs

  pub All-append : (xs ys : List A) → All xs → All ys → All (xs ++ ys)
  All-append [] ys _ hy = hy
  All-append (x ∷ xs) ys (px, hx) hy = (px, All-append xs ys hx hy)

pub All-mono {ℓ κ} :
    {A : Type ℓ} (P Q : A → Type κ) → ((x : A) → P x → Q x) → (xs : List A) → All P xs → All Q xs
All-mono P Q h [] _ = tt
All-mono P Q h (x ∷ xs) (px, hx) = (h x px, All-mono P Q h xs hx)

-- `if b { xs = append(xs, new...) }`
abbrev pub when {ℓ} : {A : Type ℓ} → Bool → List A → List A
when true new = new
when false new = []

-- `if p := o; p != nil { xs = append(xs, f(*p)...) }`
abbrev pub when_some {ℓ κ} : {A : Type ℓ} {B : Type κ} → Option A → (A → List B) → List B
when_some none f = []
when_some (some a) f = f a

-- To stand in a list.
abbrev pub IsIn : {A : Type 0} → A → List A → Type 0
IsIn a [] = ⊥
IsIn a (x ∷ xs) = (a ≡ x) ⊎ IsIn a xs

pub All-zip {ℓ κ} :
    {A : Type ℓ} (P Q : A → Type κ) (xs : List A) → All P xs → All Q xs → All (λ x. P x × Q x) xs
All-zip P Q [] _ _ = tt
All-zip P Q (x ∷ xs) (px, hx) (qx, kx) = ((px, qx), All-zip P Q xs hx kx)

pub All-IsIn {κ} : {A : Type 0} (P : A → Type κ) (xs : List A) (a : A) → All P xs → IsIn a xs → P a
All-IsIn P [] a h i = absurd i
All-IsIn P (x ∷ xs) a (px, h) (inl e) = subst P (sym e) px
All-IsIn P (x ∷ xs) a (px, h) (inr i) = All-IsIn P xs a h i

pub All-every {κ} :
    {A : Type 0} (P : A → Type κ) (xs : List A) → ((a : A) → IsIn a xs → P a) → All P xs
All-every P [] h = tt
All-every P (x ∷ xs) h = (h x (inl refl), All-every P xs (λ a i. h a (inr i)))

module _ {A : Type 0} where
  pub IsIn-append_left : (a : A) (xs ys : List A) → IsIn a xs → IsIn a (xs ++ ys)
  IsIn-append_left a [] ys h = absurd h
  IsIn-append_left a (x ∷ xs) ys (inl e) = inl e
  IsIn-append_left a (x ∷ xs) ys (inr h) = inr (IsIn-append_left a xs ys h)

  pub IsIn-append_right : (a : A) (xs ys : List A) → IsIn a ys → IsIn a (xs ++ ys)
  IsIn-append_right a [] ys h = h
  IsIn-append_right a (x ∷ xs) ys h = inr (IsIn-append_right a xs ys h)
