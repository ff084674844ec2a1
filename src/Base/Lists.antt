-- ===== src/Base/Lists.antt =====
-- Lists measured by native numbers under the library's names, and predicates over them.
use Prim.Native.Nat.{ℕ, zero, suc, ◌+◌, min}
use mathlib.Core.Path.{◌≡◌, subst}
use mathlib.Core.Bool.{true}
use mathlib.Core.List.{List, [], ◌∷◌, ◌++◌}
use native.Mathlib.Omega.{arith}
use krop_controller.Base.Equality.{Eq, contains}

module _ {ℓ} {A : Type ℓ} where
  abbrev pub length : List A → ℕ
  length [] = 0
  length (x ∷ xs) = suc (length xs)

  abbrev pub take : ℕ → List A → List A
  take zero xs = []
  take (suc n) [] = []
  take (suc n) (x ∷ xs) = x ∷ take n xs

  abbrev pub All {κ} : (A → Type κ) → List A → Type κ
  All P [] = Unit
  All P (x ∷ xs) = P x × All P xs

  pub length-append : (xs ys : List A) → length (xs ++ ys) ≡ length xs + length ys
  length-append [] ys = omega arith
  length-append (x ∷ xs) ys = omega (arith, length-append xs ys)

  pub length-take : (n : ℕ) (xs : List A) → length (take n xs) ≡ min n (length xs)
  length-take zero xs = omega arith
  length-take (suc n) [] = omega arith
  length-take (suc n) (x ∷ xs) = omega (arith, length-take n xs)

  pub All-append {κ} : (P : A → Type κ) (xs ys : List A) → All P xs → All P ys → All P (xs ++ ys)
  All-append P [] ys hx hy = hy
  All-append P (x ∷ xs) ys hx hy = (hx.0, All-append P xs ys hx.1 hy)

  pub All-parts {κ} : (P : A → Type κ) (xs ys : List A) → All P (xs ++ ys) → All P xs × All P ys
  All-parts P [] ys h = (tt, h)
  All-parts P (x ∷ xs) ys h = let (a, b) = All-parts P xs ys h.1 in ((h.0, a), b)

-- Predicates of lists, item by item.
module _ {A : Type 0} where
  pub All-map2 :
      (P Q R : A → Type 0) (xs : List A)
      → ((x : A) → P x → Q x → R x)
      → All P xs
      → All Q xs
      → All R xs
  All-map2 P Q R [] f p q = tt
  All-map2 P Q R (x ∷ xs) f p q = (f x p.0 q.0, All-map2 P Q R xs f p.1 q.1)

  pub All-map : (P Q : A → Type 0) (xs : List A) → ((x : A) → P x → Q x) → All P xs → All Q xs
  All-map P Q [] f p = tt
  All-map P Q (x ∷ xs) f p = (f x p.0, All-map P Q xs f p.1)

  pub All_intro : (P : A → Type 0) (xs : List A) → ((x : A) → P x) → All P xs
  All_intro P [] f = tt
  All_intro P (x ∷ xs) f = (f x, All_intro P xs f)

  All-cons-swap :
      {B : Type 0} (P : A → B → Type 0) (xs : List A) (y : B) (ys : List B)
      → All (λ x. P x y × All (P x) ys) xs
      → All (λ x. P x y) xs × All (λ x. All (P x) ys) xs
  All-cons-swap P [] y ys h = (tt, tt)
  All-cons-swap P (x ∷ xs) y ys h =
      let (a, b) = All-cons-swap P xs y ys h.1 in ((h.0.0, a), (h.0.1, b))

  pub All_transpose :
      {B : Type 0} (P : A → B → Type 0) (xs : List A) (ys : List B)
      → All (λ x. All (P x) ys) xs
      → All (λ y. All (λ x. P x y) xs) ys
  All_transpose P xs [] h = tt
  All_transpose P xs (y ∷ ys) h =
      let (a, b) = All-cons-swap P xs y ys h in (a, All_transpose P xs ys b)

module _ {ℓ} {A : Type ℓ} ⦃e : Eq A⦄ where
  -- What holds of all items holds of a member.
  pub at_contained {κ} :
      (P : A → Type κ) (x : A) (xs : List A) → contains xs x ≡ true → All P xs → P x
  at_contained P x [] c h = cc
  at_contained P x (y ∷ ys) c h = elim (e.dec y x) [
    | yes q ↦ subst P q h.0
    | no n ↦ at_contained P x ys (ground arith) h.1
  ]
