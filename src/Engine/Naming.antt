-- ===== src/Engine/Naming.antt =====
-- internal/engine/naming.go: the names of provider-target children and of liveness records.
-- `digest` stands for the hexadecimal SHA-256 of a text.
pub mod Dns
pub mod Unique
pub mod Bounds
use krop_controller.Base.{
  ℕ, ◌+◌, ◌-◌, Text, ◌==◌, if◌then◌else◌, Bool, ◌||◌, List, [], ◌∷◌, ◌++◌, length, take, ltb,
}
use krop_controller.Base.Bytes.{codes, byte_eq, trim_right}

abbrev pub max_name_len : ℕ
max_name_len = 253

-- The cut set "-." of `strings.TrimRight`.
abbrev pub is_seam : ℕ → Bool
is_seam x = x == b'-' || x == b'.'

-- The texts joined by the byte 0, which no DNS name holds.
abbrev pub null_joined : Text → Text → Text → Text
null_joined a b c = a ++ (0 ∷ (b ++ (0 ∷ c)))

abbrev pub hyphen_joined : Text → Text → Text → Text
hyphen_joined a b c = a ++ (b'-' ∷ (b ++ (b'-' ∷ c)))

module _ (digest : Text → Text) where
  abbrev pub name_suffix : Text → Text → Text → Text
  name_suffix cluster instance_name original =
      take 12 (digest (null_joined cluster instance_name original))

  -- The readable prefix, cut so that the whole name fits.
  unfoldable pub name_base : Text → Text → Text → Text
  unfolding trim_right
  name_base cluster instance_name original =
      let base = hyphen_joined cluster instance_name original in
      let suffix = name_suffix cluster instance_name original in
      if ltb max_name_len (length base + 1 + length suffix)
      then trim_right is_seam (take (max_name_len - 1 - length suffix) base)
      else base

  unfoldable pub provider_child_name : Text → Text → Text → Text
  unfolding name_base
  provider_child_name cluster instance_name original =
      name_base cluster instance_name original
      ++ (b'-' ∷ name_suffix cluster instance_name original)

  unfoldable pub liveness_record_name : Text → Text → Text
  liveness_record_name consumer_cluster instance_uid =
      codes "krop-live-" ++ take 16 (digest (consumer_cluster ++ (0 ∷ instance_uid)))
