-- ===== src/Kcp.antt =====
-- internal/kcp/endpointslice.go: the host of a kubeconfig, and the endpoint slice of an export. `list` is
-- the client's list call.
pub mod First
use krop_controller.Base.{Text, text_eq, ◌==◌, if◌then◌else◌, not, List, [], ◌∷◌, ◌++◌}
use krop_controller.Base.Bytes.{codes, has}
use krop_controller.Base.Result.{Result, ok, err, failure, context_of}

abbrev pub clusters_path : Text
clusters_path = codes "/clusters/"

-- `ValidateKubeconfig`
unfoldable pub validate_kubeconfig : Text → Result (Unit {0})
validate_kubeconfig server =
    if not (has clusters_path server)
    then err (failure (codes "kubeconfig host is not workspace-scoped: " ++ server))
    else ok tt

-- `APIExportEndpointSlice`, by its name and `Spec.APIExport.Name`
pub record EndpointSlice : Type 0 where
  pub name : Text
  pub export : Text

-- The loop of `FindEndpointSlice`.
unfoldable pub first_slice : Text → List EndpointSlice → Result Text
first_slice export [] =
    err (failure (codes "no APIExportEndpointSlice found for APIExport " ++ export))
first_slice export (s ∷ slices) =
    if s.export == export then ok s.name else first_slice export slices

-- `FindEndpointSlice`
unfoldable pub find_endpoint_slice :
    {W : Type 0} → (W → Result (List EndpointSlice)) → Text → W → Result Text
find_endpoint_slice list export w =
    elim (context_of (codes "listing APIExportEndpointSlices") (list w)) [
      | err e ↦ err e
      | ok slices ↦ first_slice export slices
    ]
