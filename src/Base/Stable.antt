-- ===== src/Base/Stable.antt =====
-- What programs that call an API keep and bring about, one rule for each way to build them.
use mathlib.Core.Path.{◌≡◌, refl, sym, ap, subst, ◌∙◌}
use mathlib.Core.List.{List, [], ◌∷◌}
use krop_controller.Base.Lists.{All}
use krop_controller.Base.Result.{Result, ok, err, Prog, continue, ◌>>=◌, for_each}

-- Whatever `m` returns, it keeps `P`.
abbrev pub Stable : {S A : Type 0} → (S → Type 0) → Prog S A → Type 0
Stable {S} P m = (s : S) → P s → P (m s).1

module _ {S A B : Type 0} (P : S → Type 0) where
  pub continue-Stable :
      (r : Result A) (f : A → Prog S B) → ((a : A) → Stable P (f a)) → Stable P (continue r f)
  continue-Stable (ok a) f h s p = h a s p
  continue-Stable (err e) f h s p = p

  pub bind-Stable :
      (m : Prog S A) (f : A → Prog S B)
      → Stable P m
      → ((a : A) → Stable P (f a))
      → Stable P (m >>= f)
  bind-Stable m f hm hf s p = continue-Stable (m s).0 f hf (m s).1 (hm s p)

module _ {S A B : Type 0} (P : S → Type 0) where
  -- What follows may use that the first part has succeeded.
  pub bind-Stable_ok :
      (m : Prog S A) (f : A → Prog S B)
      → Stable P m
      → ((a : A) (s : S) → (m s).0 ≡ ok a → P (m s).1 → P (f a (m s).1).1)
      → Stable P (m >>= f)
  bind-Stable_ok m f hm hf s p = go (m s).0 refl
    where
      go : (r : Result A) → (m s).0 ≡ r → P (continue r f (m s).1).1
      go (ok a) e = hf a s e (hm s p)
      go (err e) q = hm s p

module _ {S A : Type 0} (P : S → Type 0) where
  pub for_each-Stable :
      (body : A → Prog S (Unit {0})) (xs : List A)
      → ((x : A) → Stable P (body x))
      → Stable P (for_each xs body)
  for_each-Stable body [] h s p = p
  for_each-Stable body (x ∷ xs) h s p =
      bind-Stable P (body x) (λ _. for_each xs body) (h x) (λ _. for_each-Stable body xs h) s p

module _ {S A B : Type 0} where
  -- A chain that succeeds has succeeded at each step.
  pub bind-ok :
      (m : Prog S A) (f : A → Prog S B) (s : S) {b : B}
      → ((m >>= f) s).0 ≡ ok b
      → (a : A) × ((m s).0 ≡ ok a) × ((m >>= f) s ≡ f a (m s).1)
  bind-ok m f s = go (m s).0 refl
    where
      go :
          (r : Result A)
          → (m s).0 ≡ r
          → {b : B} → (continue r f (m s).1).0 ≡ ok b
          → (a : A) × ((m s).0 ≡ ok a) × ((m >>= f) s ≡ f a (m s).1)
      go (ok a) e h = (a, e, rw e)
      go (err x) e h = cc

module _ {S A : Type 0} (Q : A → S → Type 0) (body : A → Prog S (Unit {0})) where
  -- A loop that succeeds has done its work for every item, if later rounds do not undo it.
  pub for_each-All :
      ((x : A) (s : S) → (body x s).0 ≡ ok tt → Q x (body x s).1)
      → ((x y : A) → Stable (Q y) (body x))
      → (xs : List A) (s : S) → (for_each xs body s).0 ≡ ok tt
      → All (λ x. Q x (for_each xs body s).1) xs
  for_each-All does keeps [] s h = tt
  for_each-All does keeps (x ∷ xs) s h =
      let (_, e, q) = bind-ok (body x) (λ _. for_each xs body) s h in
      subst (λ (t : Result (Unit {0}) × S). Q x t.1 × All (λ y. Q y t.1) xs) (sym q)
        (
          for_each-Stable (Q x) body xs (λ y. keeps y x) (body x s).1 (does x s e),
          for_each-All does keeps xs (body x s).1
              (ap (λ (t : Result (Unit {0}) × S). t.0) (sym q) ∙ h),
        )

module _ {S A : Type 0} (P : S → Type 0) where
  -- The rounds of a loop over items that have a property.
  pub for_each-Stable_on :
      (C : A → Type 0) (body : A → Prog S (Unit {0})) (xs : List A)
      → ((x : A) → C x → Stable P (body x))
      → All C xs
      → Stable P (for_each xs body)
  for_each-Stable_on C body [] h all s p = p
  for_each-Stable_on C body (x ∷ xs) h all s p =
      bind-Stable P (body x) (λ _. for_each xs body) (h x all.0)
        (λ _. for_each-Stable_on C body xs h all.1) s p

module _ {S A B : Type 0} (P : S → Type 0) (f : S → Result A) where
  -- What follows a read may use what was read.
  pub reads-Stable :
      (g : Result A → Result A) (m : A → Prog S B)
      → ((a : A) (s : S) → g (f s) ≡ ok a → P s → P (m a s).1)
      → Stable P (λ s. continue (g (f s)) m s)
  reads-Stable g m h s p = go (g (f s)) refl
    where
      go : (r : Result A) → g (f s) ≡ r → P (continue r m s).1
      go (ok a) e = h a s e p
      go (err e) q = p
