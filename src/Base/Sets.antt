-- ===== src/Base/Sets.antt =====
-- Go's `seen` map beside a slice: a list to which a value is added only once.
use mathlib.Core.Path.{◌≡◌, refl}
use mathlib.Core.Bool.{Bool, true, false, ◌||◌}
use mathlib.Core.List.{List, [], ◌∷◌, ◌++◌}
use native.Mathlib.Omega.{arith}
use krop_controller.Base.Equality.{Eq, ◌==◌, contains, if◌then◌else◌}

module _ {A : Type 0} ⦃e : Eq A⦄ where
  -- `if !seen[a] { seen[a] = true; out = append(out, a) }`
  abbrev pub add_new : A → List A → List A
  add_new a out = if contains out a then out else out ++ (a ∷ [])

  abbrev pub NoRepeats : List A → Type 0
  NoRepeats [] = Unit
  NoRepeats (x ∷ xs) = (contains xs x ≡ false) × NoRepeats xs

  contains-append :
      (xs ys : List A) (a : A) → contains (xs ++ ys) a ≡ (contains xs a || contains ys a)
  contains-append [] ys a = refl
  contains-append (x ∷ xs) ys a = ground (arith, contains-append xs ys a)

  pub contains-add_new :
      (x : A) (out : List A) (a : A) → contains (add_new x out) a ≡ (contains out a || x == a)
  contains-add_new x out a = ground (arith, contains-append out (x ∷ []) a)

  NoRepeats-append :
      (xs : List A) (a : A) → contains xs a ≡ false → NoRepeats xs → NoRepeats (xs ++ (a ∷ []))
  NoRepeats-append [] a c h = (refl, tt)
  NoRepeats-append (x ∷ xs) a c h =
      (ground (arith, contains-append xs (a ∷ []) x), NoRepeats-append xs a (ground arith) h.1)

  pub NoRepeats-add_new : (a : A) (out : List A) → NoRepeats out → NoRepeats (add_new a out)
  NoRepeats-add_new a out h = go (contains out a) refl
    where
      go : (b : Bool) → contains out a ≡ b → NoRepeats (add_new a out)
      go true q = rw q h
      go false q = rw q (NoRepeats-append out a q h)

  pub NoRepeats-if :
      (b : Bool) (xs ys : List A) → NoRepeats xs → NoRepeats ys → NoRepeats (if b then xs else ys)
  NoRepeats-if true xs ys h k = h
  NoRepeats-if false xs ys h k = k
