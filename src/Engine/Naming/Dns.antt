-- ===== src/Engine/Naming/Dns.antt =====
-- The names of `ProviderChildName` as DNS-1123 subdomains.
use krop_controller.Base.{
  ℕ, zero, suc, ◌≤◌, ◌<◌, ◌≢◌, All, Text, ◌==◌, ◌≡◌, refl, ◌⊎◌, inl, inr, Bool, true, false, ◌&&◌,
  ◌||◌, if◌then◌else◌, Option, none, some, [], ◌∷◌, ◌++◌, take, leb, ltb, arith, length, ◌+◌,
}
use krop_controller.Base.Bytes.{byte_eq, trim_right}
use krop_controller.Engine.Naming.Bounds.{length-name_suffix}
use krop_controller.Engine.Naming.{
  provider_child_name, name_base, name_suffix, hyphen_joined, is_seam, max_name_len,
}

-- Where a reader of a subdomain stands: before a label, behind a letter or digit, behind a hyphen.
pub data Pos : Type 0 where
  fresh inside dashed : Pos

abbrev pub is_alnum : ℕ → Bool
is_alnum x = (leb b'a' x && leb x b'z') || (leb b'0' x && leb x b'9')

pub data Class : Type 0 where
  alnum dash dot other : Class

unfoldable pub class_of : ℕ → Class
class_of x =
    if x == b'-' then dash else if x == b'.' then dot else if is_alnum x then alnum else other

abbrev pub move : Pos → Class → Option Pos
move p alnum = some inside
move fresh dash = none
move p dash = some dashed
move inside dot = some fresh
move p dot = none
move p other = none

-- A text that a reader at `p` can go on with to the end of a name.
abbrev pub reads_on : Pos → Text → Bool
reads_on inside [] = true
reads_on p [] = false
reads_on p (x ∷ s) = elim (move p (class_of x)) [ none ↦ false | some q ↦ reads_on q s ]

-- Lower-case labels joined by dots; a label begins and ends in a letter or a digit.
unfoldable pub is_subdomain : Text → Bool
unfolding class_of
is_subdomain s = reads_on fresh s

class_of_hyphen : class_of b'-' ≡ dash
unfolding class_of byte_eq
class_of_hyphen = refl

reads_on_dashed : (s : Text) → reads_on fresh s ≡ true → reads_on dashed s ≡ true
reads_on_dashed [] h = h
reads_on_dashed (x ∷ s) h = ground (arith, class_of x)

-- Two subdomains joined by a hyphen are one.
reads_on-hyphen :
    (p : Pos) (a b : Text)
    → reads_on p a ≡ true
    → reads_on fresh b ≡ true
    → reads_on p (a ++ (b'-' ∷ b)) ≡ true
reads_on-hyphen inside [] b ha hb = rw (class_of_hyphen, reads_on) (reads_on_dashed b hb)
reads_on-hyphen fresh [] b ha hb = cc
reads_on-hyphen dashed [] b ha hb = cc
reads_on-hyphen p (x ∷ a) b ha hb =
    ground
      (arith, reads_on-hyphen fresh a b, reads_on-hyphen inside a b, reads_on-hyphen dashed a b)

-- What is left of a name after a cut can be read as far as it goes.
abbrev reads : Pos → Text → Bool
reads p [] = true
reads p (x ∷ s) = elim (move p (class_of x)) [ none ↦ false | some q ↦ reads q s ]

reads-take : (n : ℕ) (p : Pos) (s : Text) → reads_on p s ≡ true → reads p (take n s) ≡ true
reads-take zero p s h = refl
reads-take (suc n) p [] h = refl
reads-take (suc n) p (x ∷ s) h =
    ground (arith, reads-take n fresh s, reads-take n inside s, reads-take n dashed s)

seam_class : (x : ℕ) → is_seam x ≡ false → (class_of x ≡ alnum) ⊎ (class_of x ≡ other)
unfolding class_of
seam_class x h = ground arith

-- Without its trailing hyphens and dots it is a name, or nothing is left of it.
reads_on-trim_right :
    (p : Pos) (s : Text)
    → reads p s ≡ true
    → (trim_right is_seam s ≡ []) ⊎ (reads_on p (trim_right is_seam s) ≡ true)
unfolding trim_right
reads_on-trim_right p [] h = inl refl
reads_on-trim_right p (x ∷ s) h = ground (
  arith,
  seam_class x,
  reads_on-trim_right fresh s,
  reads_on-trim_right inside s,
  reads_on-trim_right dashed s,
)

trim_right-ne-nil :
    (x : ℕ) (s : Text) → reads fresh (x ∷ s) ≡ true → trim_right is_seam (x ∷ s) ≢ []
unfolding trim_right class_of
trim_right-ne-nil x s h = ground arith

-- A cut and trimmed name is a name, if anything is kept.
is_subdomain-trimmed :
    (n : ℕ) (s : Text)
    → is_subdomain s ≡ true
    → is_subdomain (trim_right is_seam (take (suc n) s)) ≡ true
unfolding is_subdomain
is_subdomain-trimmed n [] h = cc
is_subdomain-trimmed n (x ∷ s) h =
    elim (reads_on-trim_right fresh (x ∷ take n s) (reads-take (suc n) fresh (x ∷ s) h)) [
      | inl gone ↦ absurd (trim_right-ne-nil x (take n s) (reads-take (suc n) fresh (x ∷ s) h) gone)
      | inr kept ↦ kept
    ]

is_subdomain-hyphen_joined :
    (a b c : Text)
    → is_subdomain a ≡ true
    → is_subdomain b ≡ true
    → is_subdomain c ≡ true
    → is_subdomain (hyphen_joined a b c) ≡ true
unfolding is_subdomain
is_subdomain-hyphen_joined a b c ha hb hc =
    reads_on-hyphen fresh a _ ha (reads_on-hyphen fresh b c hb hc)

abbrev pub IsHex : Text → Type 0
IsHex = All (λ x. is_alnum x ≡ true)

class_of_alnum : (x : ℕ) → is_alnum x ≡ true → class_of x ≡ alnum
unfolding class_of
class_of_alnum x h = ground arith

reads_on_hex : (s : Text) → IsHex s → reads_on inside s ≡ true
reads_on_hex [] h = refl
reads_on_hex (x ∷ s) h = rw (class_of_alnum x h.0, reads_on) (reads_on_hex s h.1)

take-IsHex : (n : ℕ) (s : Text) → IsHex s → IsHex (take n s)
take-IsHex zero s h = tt
take-IsHex (suc n) [] h = tt
take-IsHex (suc n) (x ∷ s) h = (h.0, take-IsHex n s h.1)

is_subdomain_hex : (s : Text) → IsHex s → 0 < length s → is_subdomain s ≡ true
unfolding is_subdomain
is_subdomain_hex [] h n = absurd (omega arith)
is_subdomain_hex (x ∷ s) h n = rw (class_of_alnum x h.0, reads_on) (reads_on_hex s h.1)

either_way :
    (b : Bool) (s t : Text)
    → is_subdomain s ≡ true
    → is_subdomain t ≡ true
    → is_subdomain (if b then s else t) ≡ true
either_way true s t hs ht = hs
either_way false s t hs ht = ht

module _ (digest : Text → Text) (digest_long : (s : Text) → 12 ≤ length (digest s))
    (digest_hex : (s : Text) → IsHex (digest s)) where
  name_base-is_subdomain :
      (c i o : Text)
      → is_subdomain c ≡ true
      → is_subdomain i ≡ true
      → is_subdomain o ≡ true
      → is_subdomain (name_base digest c i o) ≡ true
  unfolding name_base
  name_base-is_subdomain c i o hc hi ho =
      either_way
        (ltb max_name_len (length (hyphen_joined c i o) + 1 + length (name_suffix digest c i o))) _
        _ (rw (length-name_suffix digest digest_long c i o) (is_subdomain-trimmed 239 _ joined))
        joined
    where
      joined : is_subdomain (hyphen_joined c i o) ≡ true
      joined = is_subdomain-hyphen_joined c i o hc hi ho

  -- Where the cluster's, the instance's and the child's names are DNS-1123 subdomains and the digest
  -- is at least 12 letters and digits, so is the name of the provider child, cut or not: the seam
  -- before the suffix never follows a hyphen or a dot.
  pub is_subdomain-provider_child_name :
      (c i o : Text)
      → is_subdomain c ≡ true
      → is_subdomain i ≡ true
      → is_subdomain o ≡ true
      → is_subdomain (provider_child_name digest c i o) ≡ true
  unfolding provider_child_name is_subdomain
  is_subdomain-provider_child_name c i o hc hi ho =
      reads_on-hyphen fresh (name_base digest c i o) (name_suffix digest c i o)
        (name_base-is_subdomain c i o hc hi ho)
        (is_subdomain_hex (name_suffix digest c i o) (take-IsHex 12 _ (digest_hex _))
          (omega (arith, length-name_suffix digest digest_long c i o)))
