-- ===== src/Controller/Tokens/RoundTrip.antt =====
-- The tokens of `childGVKString`, read by the sweeper's loop over them.
use krop_controller.Base.{
  ℕ, Text, text_eq, ◌≡◌, ◌≢◌, refl, ap, false, some, List, [], ◌∷◌, ◌++◌, map, All, All-append,
  arith,
}
use krop_controller.Base.Bytes.{
  byte_eq, cut_byte, split, split_in_three, join, trim_left, trim_right, trim_space, is_space,
}
use krop_controller.Base.Result.{ok}
use krop_controller.Api.Object.{Gvk}
use krop_controller.Controller.Tokens.{
  gvk_token, gvk_string, parse_gvk_token, parsed_token, parsed_tokens, parse_gvk_string,
}

-- Bytes that a kind's names may hold: no white space, no comma; a group and a version no slash.
abbrev pub IsPlain : Text → Type 0
IsPlain = All (λ x. (is_space x ≡ false) × (x ≢ b','))

abbrev pub SlashFree : Text → Type 0
SlashFree = All (λ x. x ≢ b'/')

pub record IsWritable (g : Gvk) : Type 0 where
  pub group_plain : IsPlain g.group
  pub version_plain : IsPlain g.version
  pub kind_plain : IsPlain g.kind
  pub group_slashes : SlashFree g.group
  pub version_slashes : SlashFree g.version
  pub has_version : g.version ≢ []
  pub has_kind : g.kind ≢ []

cut_byte-append :
    (c : ℕ) (a b : Text) → All (λ x. x ≢ c) a → cut_byte c (a ++ (c ∷ b)) ≡ some (a, b)
unfolding cut_byte
cut_byte-append c [] b h = ground arith
cut_byte-append c (x ∷ a) b h = ground (arith, cut_byte-append c a b h.1, h.0)

split_in_three-token :
    (g : Gvk) → IsWritable g → split_in_three b'/' (gvk_token g) ≡ g.group ∷ g.version ∷ g.kind ∷ []
unfolding split_in_three gvk_token
split_in_three-token g w =
    rw (cut_byte-append b'/' g.group (g.version ++ (b'/' ∷ g.kind)) w.group_slashes, split_in_three)
      (rw (cut_byte-append b'/' g.version g.kind w.version_slashes, split_in_three))

parse_gvk_token-token : (g : Gvk) → IsWritable g → parse_gvk_token (gvk_token g) ≡ ok g
unfolding parse_gvk_token
parse_gvk_token-token g w =
    rw (split_in_three-token g w) (ground (arith, w.has_version, w.has_kind))

split-plain : (c : ℕ) (a b : Text) → All (λ x. x ≢ c) a → split c (a ++ (c ∷ b)) ≡ a ∷ split c b
unfolding split
split-plain c [] b h = ground arith
split-plain c (x ∷ a) b h = ground (arith, split-plain c a b h.1, h.0)

split_last : (c : ℕ) (a : Text) → All (λ x. x ≢ c) a → split c a ≡ a ∷ []
unfolding split
split_last c [] h = refl
split_last c (x ∷ a) h = ground (arith, split_last c a h.1, h.0)

trim_left-plain : (a : Text) → All (λ x. is_space x ≡ false) a → trim_left is_space a ≡ a
unfolding trim_left
trim_left-plain [] h = refl
trim_left-plain (x ∷ a) h = rw h.0

trim_right-plain : (a : Text) → All (λ x. is_space x ≡ false) a → trim_right is_space a ≡ a
unfolding trim_right
trim_right-plain [] h = refl
trim_right-plain (x ∷ a) h = ground (arith, trim_right-plain a h.1, h.0)

trim_space-plain : (a : Text) → All (λ x. is_space x ≡ false) a → trim_space a ≡ a
unfolding trim_space
trim_space-plain a h = rw (trim_left-plain a h) (trim_right-plain a h)

module _ {P Q : ℕ → Type 0} where
  All-imp : ((x : ℕ) → P x → Q x) → (a : Text) → All P a → All Q a
  All-imp f [] h = tt
  All-imp f (x ∷ a) h = (f x h.0, All-imp f a h.1)

-- A token has no comma and no white space.
token-IsPlain : (g : Gvk) → IsWritable g → IsPlain (gvk_token g)
unfolding gvk_token
token-IsPlain g w =
    All-append _ g.group _ w.group_plain
      (slash, All-append _ g.version _ w.version_plain (slash, w.kind_plain))
  where
    slash : (is_space b'/' ≡ false) × (◌≢◌ {A = ℕ} b'/' b',')
    slash = ground arith

append-cons-ne-nil : (a : Text) (x : ℕ) (b : Text) → a ++ (x ∷ b) ≢ []
append-cons-ne-nil [] x b e = cc
append-cons-ne-nil (y ∷ a) x b e = cc

token-ne-nil : (g : Gvk) → gvk_token g ≢ []
unfolding gvk_token
token-ne-nil g = append-cons-ne-nil g.group b'/' _

parsed_token-token : (g : Gvk) → IsWritable g → parsed_token (trim_space (gvk_token g)) ≡ g ∷ []
parsed_token-token g w =
    rw (trim_space-plain _ (All-imp (λ x h. h.0) _ (token-IsPlain g w)))
      (rw (parse_gvk_token-token g w) (ground (arith, token-ne-nil g)))

split-join :
    (g : Gvk) (gvks : List Gvk)
    → All IsWritable (g ∷ gvks)
    → split b',' (join b',' (map gvk_token (g ∷ gvks))) ≡ map gvk_token (g ∷ gvks)
unfolding join
split-join g [] w = split_last b',' _ (All-imp (λ x h. h.1) _ (token-IsPlain g w.0))
split-join g (h ∷ gvks) w =
    rw (split-plain b',' (gvk_token g) _ (All-imp (λ x q. q.1) _ (token-IsPlain g w.0)))
      (ap (λ ts. gvk_token g ∷ ts) (split-join h gvks w.1))

parsed_tokens-token :
    (gvks : List Gvk) → All IsWritable gvks → parsed_tokens (map gvk_token gvks) ≡ gvks
parsed_tokens-token [] w = refl
parsed_tokens-token (g ∷ gvks) w =
    rw (parsed_token-token g w.0) (ap (λ gs. g ∷ gs) (parsed_tokens-token gvks w.1))

-- The kinds that the reconciler writes into a liveness record are the kinds that the sweeper reads
-- from it, all of them and in their order, the core group with its empty name included.
pub parse_gvk_string-gvk_string :
    (gvks : List Gvk) → All IsWritable gvks → parse_gvk_string (gvk_string gvks) ≡ gvks
unfolding parse_gvk_string gvk_string
parse_gvk_string-gvk_string [] w = ground arith
parse_gvk_string-gvk_string (g ∷ gvks) w =
    rw (split-join g gvks w) (parsed_tokens-token (g ∷ gvks) w)
