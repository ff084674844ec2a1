-- ===== src/Base/Result.antt =====
-- Go's errors and `(T, error)` results, and code that calls an API: the state of the world goes
-- along, and what was written before an error stays written.
use mathlib.Core.Path.{◌≡◌, refl}
use mathlib.Core.Logic.{◌⊎◌, inl, inr}
use mathlib.Core.Bool.{Bool, true, false}
use mathlib.Core.List.{List, [], ◌∷◌}
use krop_controller.Base.Equality.{Text, if◌then◌else◌}

-- `wrap` is `fmt.Errorf("…: %w", err)`, `failure` an error with no cause.
pub data Error : Type 0 where
  not_found data_pending : Error
  api : Text → Error
  failure : Text → Error
  wrap : Text → Error → Error

-- `apierrors.IsNotFound(err)` and `errors.Is(err, runtime.ErrDataPending)`, which look through `%w`.
abbrev pub is_not_found : Error → Bool
is_not_found not_found = true
is_not_found (wrap _ e) = is_not_found e
is_not_found _ = false

abbrev pub is_data_pending : Error → Bool
is_data_pending data_pending = true
is_data_pending (wrap _ e) = is_data_pending e
is_data_pending _ = false

pub data Result {ℓ} (A : Type ℓ) : Type ℓ where
  ok : A → Result A
  err : Error → Result A

pub Result-cases {ℓ} :
    {A : Type ℓ} (r : Result A) → ((a : A) × (r ≡ ok a)) ⊎ ((e : Error) × (r ≡ err e))
Result-cases (ok a) = inl (a, refl)
Result-cases (err e) = inr (e, refl)

-- Code that returns `(A, error)` and changes the world `S`.
abbrev pub Prog : Type 0 → Type 0 → Type 0
Prog S A = S → Result A × S

-- `if err != nil { return fmt.Errorf("…: %w", err) }`
abbrev pub context_of : {A : Type 0} → Text → Result A → Result A
context_of t (ok a) = ok a
context_of t (err e) = err (wrap t e)

abbrev pub ignored : Result (Unit {0}) → Result (Unit {0})
ignored (ok u) = ok u
ignored (err e) = if is_not_found e then ok tt else err e

module _ {S A : Type 0} where
  abbrev pub pure : A → Prog S A
  pure a s = (ok a, s)

  abbrev pub raise : Error → Prog S A
  raise e s = (err e, s)

  -- A call that only reads.
  abbrev pub reads : (S → Result A) → Prog S A
  reads f s = (f s, s)

  abbrev pub context : Text → Prog S A → Prog S A
  context t m s = let (r, s') = m s in (context_of t r, s')

  -- The error as a value, for code that looks at it.
  abbrev pub attempt : Prog S A → Prog S (Result A)
  attempt m s = let (r, s') = m s in (ok r, s')

module _ {S A B : Type 0} where
  abbrev pub continue : Result A → (A → Prog S B) → Prog S B
  continue (ok a) f s = f a s
  continue (err e) f s = (err e, s)

  infixl 10 ◌>>=◌ ◌>>◌
  abbrev pub ◌>>=◌ : Prog S A → (A → Prog S B) → Prog S B
  ◌>>=◌ m f s = let (r, s') = m s in continue r f s'

  abbrev pub ◌>>◌ : Prog S A → Prog S B → Prog S B
  m >> n = m >>= λ _. n

module _ {S : Type 0} where
  -- `client.IgnoreNotFound(err)`
  abbrev pub ignore_not_found : Prog S (Unit {0}) → Prog S (Unit {0})
  ignore_not_found m s = let (r, s') = m s in (ignored r, s')

module _ {S A : Type 0} where
  -- `for _, x := range xs { if err := body(x); err != nil { return err } }`
  abbrev pub for_each : List A → (A → Prog S (Unit {0})) → Prog S (Unit {0})
  for_each [] body = pure tt
  for_each (x ∷ xs) body = body x >> for_each xs body
