-- ===== src/Engine/Naming/Unique.antt =====
-- When two names of `ProviderChildName` are equal.
use krop_controller.Base.{Text, ◌≢◌, All}

-- A DNS name holds no byte 0.
abbrev pub NullFree : Text → Type 0
NullFree = All (λ x. x ≢ 0)
