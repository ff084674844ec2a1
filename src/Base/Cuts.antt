-- ===== src/Base/Cuts.antt =====
-- What `strings.Cut` finds.
use Prim.Native.Nat.{ℕ, suc, ◌≤◌}
use mathlib.Core.Path.{◌≡◌, refl, ap, ◌∙◌}
use mathlib.Core.Logic.{◌≢◌}
use mathlib.Core.Option.{Option, none, some}
use mathlib.Core.List.{[], ◌∷◌, ◌++◌}
use native.Mathlib.Omega.{arith}
use krop_controller.Base.Equality.{Text, ◌==◌, if◌then◌else◌}
use krop_controller.Base.Lists.{length, All}
use krop_controller.Base.Bytes.{byte_eq, cut_byte, cut_cons, strip_prefix, cut_at, cut}

pub strip_prefix-splits : (p s r : Text) → strip_prefix p s ≡ some r → s ≡ p ++ r
unfolding strip_prefix
strip_prefix-splits [] s r h = cc
strip_prefix-splits (x ∷ p) [] r h = cc
strip_prefix-splits (x ∷ p) (y ∷ s) r h = ground (arith, h, strip_prefix-splits p s r)

pub strip_prefix-append : (p r : Text) → strip_prefix p (p ++ r) ≡ some r
unfolding strip_prefix
strip_prefix-append [] r = refl
strip_prefix-append (x ∷ p) r = ground (arith, strip_prefix-append p r)

splits_step :
    (sep : Text) (x : ℕ) (s : Text) (o : Option Text) (c : Option (Text × Text)) (a b : Text)
    → ((r : Text) → o ≡ some r → (x ∷ s) ≡ sep ++ r)
    → ((a b : Text) → c ≡ some (a, b) → s ≡ a ++ (sep ++ b))
    → cut_at o (cut_cons x c) ≡ some (a, b)
    → (x ∷ s) ≡ a ++ (sep ++ b)
splits_step sep x s (some r) c a b here later h = ground (arith, here r, h)
splits_step sep x s none none a b here later h = cc
splits_step sep x s none (some (a', b')) a b here later h = ground (arith, later a' b', h)

splits_nil :
    (sep : Text) (o : Option Text) (a b : Text)
    → ((r : Text) → o ≡ some r → [] ≡ sep ++ r)
    → cut_at o none ≡ some (a, b)
    → [] ≡ a ++ (sep ++ b)
splits_nil sep none a b here h = cc
splits_nil sep (some r) a b here h = ground (arith, here r, h)

-- The two parts, with the separator between them, are the text.
pub cut-splits : (sep s a b : Text) → cut sep s ≡ some (a, b) → s ≡ a ++ (sep ++ b)
unfolding cut
cut-splits sep [] a b h = splits_nil sep (strip_prefix sep []) a b (strip_prefix-splits sep []) h
cut-splits sep (x ∷ s) a b h =
    splits_step sep x s (strip_prefix sep (x ∷ s)) (cut sep s) a b (strip_prefix-splits sep (x ∷ s))
      (cut-splits sep s) h

first_nil : (o : Option Text) (a b : Text) → cut_at o none ≡ some (a, b) → a ≡ []
first_nil none a b h = cc
first_nil (some r) a b h = cc

first_step :
    (x : ℕ) (o : Option Text) (c : Option (Text × Text)) (a b : Text) (n : ℕ)
    → ((a b : Text) → c ≡ some (a, b) → length a ≤ n)
    → cut_at o (cut_cons x c) ≡ some (a, b)
    → length a ≤ suc n
first_step x (some r) c a b n later h = ground (arith, h)
first_step x none none a b n later h = cc
first_step x none (some (a', b')) a b n later h = ground (arith, h, later a' b')

-- No place of the separator lies before the one that is found.
pub cut_first :
    (sep s a b a' b' : Text)
    → cut sep s ≡ some (a, b)
    → s ≡ a' ++ (sep ++ b')
    → length a ≤ length a'
unfolding cut
cut_first sep [] a b a' b' h e = ground (arith, first_nil (strip_prefix sep []) a b h)
cut_first sep (x ∷ s) a b [] b' h e =
    ground (arith, h, ap (strip_prefix sep) e ∙ strip_prefix-append sep b')
cut_first sep (x ∷ s) a b (y ∷ a') b' h e =
    first_step x (strip_prefix sep (x ∷ s)) (cut sep s) a b (length a')
      (λ a₁ b₁ q. cut_first sep s a₁ b₁ a' b' q (cc)) h

cut_byte_step :
    (c x : ℕ) (s : Text) (o : Option (Text × Text)) (a b : Text)
    → ((a b : Text) → o ≡ some (a, b) → (s ≡ a ++ (c ∷ b)) × All (λ y. y ≢ c) a)
    → (if x == c then some ([], s) else cut_cons x o) ≡ some (a, b)
    → ((x ∷ s) ≡ a ++ (c ∷ b)) × All (λ y. y ≢ c) a
cut_byte_step c x s none a b later h = ground (arith, h)
cut_byte_step c x s (some (a', b')) a b later h = ground (arith, h, later a' b')

pub cut_byte-splits :
    (c : ℕ) (s a b : Text) → cut_byte c s ≡ some (a, b) → (s ≡ a ++ (c ∷ b)) × All (λ x. x ≢ c) a
unfolding cut_byte
cut_byte-splits c [] a b h = cc
cut_byte-splits c (x ∷ s) a b h = cut_byte_step c x s (cut_byte c s) a b (cut_byte-splits c s) h

none_step :
    (c x : ℕ) (s : Text) (o : Option (Text × Text))
    → (if x == c then some ([], s) else cut_cons x o) ≡ none
    → (x ≢ c) × (o ≡ none)
none_step c x s none h = ((λ e. ground (arith, h, e)), refl)
none_step c x s (some (a, b)) h = absurd (ground (arith, h))

pub cut_byte-none : (c : ℕ) (s : Text) → cut_byte c s ≡ none → All (λ x. x ≢ c) s
unfolding cut_byte
cut_byte-none c [] h = tt
cut_byte-none c (x ∷ s) h =
    let (other, rest) = none_step c x s (cut_byte c s) h in (other, cut_byte-none c s rest)
