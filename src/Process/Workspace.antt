-- ===== src/Process/Workspace.antt =====
-- `providerWorkspaceName` and `podNamespace` of cmd/controller/main.go.
use mathlib.Core.List.{append-nil}
use krop_controller.Base.{
  ℕ, ◌≤◌, Text, text_eq, ◌==◌, if◌then◌else◌, ◌≡◌, ◌≢◌, ◌⊎◌, refl, sym, ◌∙◌, ap, subst, not, Option,
  none, some, [], ◌∷◌, ◌++◌, length, All, All-parts, arith, Bool-cases, inl, inr,
}
use krop_controller.Base.Bytes.{codes, cut, cut_byte, has}
use krop_controller.Base.Cuts.{cut-splits, cut_first, cut_byte-splits, cut_byte-none}
use krop_controller.Base.Result.{ok}
use krop_controller.Kcp.{clusters_path, validate_kubeconfig}

-- `podNamespace`: `env` is the variable POD_NAMESPACE, empty where it is not set.
unfoldable pub pod_namespace : Text → Text
pod_namespace env = if not (env == []) then env else codes "default"

-- `name[:j]` at the first '/', if there is one.
unfoldable pub up_to_slash : Text → Text
up_to_slash after = elim (cut_byte b'/' after) [ none ↦ after | some (name, _) ↦ name ]

unfoldable pub provider_workspace_name : Text → Text
provider_workspace_name host = elim (cut clusters_path host) [
  | none ↦ host
  | some (_, after) ↦ let name = up_to_slash after in if name == [] then host else name
]

-- What stands after the name: nothing, or a path.
abbrev pub IsPath : Text → Type 0
IsPath rest = (rest ≡ []) ⊎ ((path : Text) × (rest ≡ b'/' ∷ path))

up_to_slash-splits :
    (after : Text)
    → (rest : Text) × (after ≡ up_to_slash after ++ rest)
      × All (λ x. x ≢ b'/') (up_to_slash after)
      × IsPath rest
unfolding up_to_slash
up_to_slash-splits after = go (cut_byte b'/' after) refl
  where
    go :
        (o : Option (Text × Text))
        → cut_byte b'/' after ≡ o
        → (rest : Text) × (after ≡ up_to_slash after ++ rest)
          × All (λ x. x ≢ b'/') (up_to_slash after)
          × IsPath rest
    go none e =
        rw (e, up_to_slash) ([], sym (append-nil after), cut_byte-none b'/' after e, inl refl)
    go (some (name, path)) e =
        let (whole, free) = cut_byte-splits b'/' after name path e in
        rw (e, up_to_slash) (b'/' ∷ path, whole, free, inr (path, refl))

-- For a host that is accepted as workspace-scoped: the host is a prefix, "/clusters/" for the first time,
-- a name with no slash, and nothing or a path. The result is that name, and the whole host if the name is
-- empty. All its bytes are the host's.
pub provider_workspace_name-IsSegment :
    (host : Text) (P : ℕ → Type 0)
    → validate_kubeconfig host ≡ ok tt
    → All P host
    → All P (provider_workspace_name host)
      × (before : Text) × (name : Text) × (rest : Text) × (host
          ≡ before ++ (clusters_path ++ (name ++ rest)))
      × All (λ x. x ≢ b'/') name
      × IsPath rest
      × ((a b : Text) → host ≡ a ++ (clusters_path ++ b) → length before ≤ length a)
      × (provider_workspace_name host ≡ (if name == [] then host else name))
unfolding provider_workspace_name validate_kubeconfig has
provider_workspace_name-IsSegment host P valid all = go (cut clusters_path host) refl
  where
    chosen : (name : Text) → All P name → All P (if name == [] then host else name)
    chosen name h = elim (Bool-cases (name == [])) [
      | inl empty ↦ rw empty all
      | inr named ↦ rw named h
    ]

    go :
        (o : Option (Text × Text))
        → cut clusters_path host ≡ o
        → All P (provider_workspace_name host)
          × (before : Text) × (name : Text) × (rest : Text) × (host
              ≡ before ++ (clusters_path ++ (name ++ rest)))
          × All (λ x. x ≢ b'/') name
          × IsPath rest
          × ((a b : Text) → host ≡ a ++ (clusters_path ++ b) → length before ≤ length a)
          × (provider_workspace_name host ≡ (if name == [] then host else name))
    go none e = absurd (ground (arith, e, valid))
    go (some (before, after)) e =
        let (rest, whole, free, path) = up_to_slash-splits after in
        let name = up_to_slash after in
        let split : host ≡ before ++ (clusters_path ++ (name ++ rest)) =
          cut-splits clusters_path host before after e
          ∙ ap (λ (t : Text). before ++ (clusters_path ++ t)) whole in
        let (_, tail) =
          All-parts P before (clusters_path ++ (name ++ rest))
            (subst (λ (t : Text). All P t) split all) in
        let (_, end) = All-parts P clusters_path (name ++ rest) tail in
        let result : provider_workspace_name host ≡ (if name == [] then host else name) =
          rw (e, provider_workspace_name) in
        (
          subst (λ (t : Text). All P t) (sym result) (chosen name (All-parts P name rest end).0),
          before,
          name,
          rest,
          split,
          free,
          path,
          λ a b. cut_first clusters_path host before after a b e,
          result,
        )
