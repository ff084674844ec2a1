-- ===== src/Engine/Naming/Bounds.antt =====
-- The length of a provider child's name.
use krop_controller.Base.{
  ℕ, ◌-◌, ◌≤◌, Text, ◌≡◌, Bool, [], ◌∷◌, length, take, length-append, length-take, arith,
}
use krop_controller.Base.Bytes.{trim_right}
use krop_controller.Engine.Naming.{
  provider_child_name, name_base, name_suffix, hyphen_joined, is_seam, max_name_len,
}

length-trim_right-le : (cut : ℕ → Bool) (s : Text) → length (trim_right cut s) ≤ length s
unfolding trim_right
length-trim_right-le cut [] = omega arith
length-trim_right-le cut (x ∷ s) = ground (arith, length-trim_right-le cut s)

module _ (digest : Text → Text) (digest_long : (s : Text) → 12 ≤ length (digest s)) where
  pub length-name_suffix : (c i o : Text) → length (name_suffix digest c i o) ≡ 12
  length-name_suffix c i o = omega (arith, digest_long _, length-take 12 (digest _))

  length-name_base-le : (c i o : Text) → length (name_base digest c i o) ≤ 240
  unfolding name_base
  length-name_base-le c i o = ground (
    arith,
    length-name_suffix c i o,
    length-trim_right-le is_seam
        (take (max_name_len - 1 - length (name_suffix digest c i o)) (hyphen_joined c i o)),
    length-take (max_name_len - 1 - length (name_suffix digest c i o)) (hyphen_joined c i o),
  )

  -- With a digest of at least 12 bytes, the name of a provider child never passes the 253 bytes
  -- that Kubernetes allows, however long the cluster's, the instance's and the child's names are.
  pub length-provider_child_name-le :
      (c i o : Text) → length (provider_child_name digest c i o) ≤ max_name_len
  unfolding provider_child_name
  length-provider_child_name-le c i o = omega (
    arith,
    length-append (name_base digest c i o) (b'-' ∷ name_suffix digest c i o),
    length-name_base-le c i o,
    length-name_suffix c i o,
  )
