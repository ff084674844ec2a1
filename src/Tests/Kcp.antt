-- ===== src/Tests/Kcp.antt =====
-- internal/kcp at concrete inputs.
use krop_controller.Base.{◌≡◌, ◌↔◌, refl, List, [], ◌∷◌}
use krop_controller.Base.Bytes.{codes}
use krop_controller.Base.Result.{ok}
use krop_controller.Kcp.{EndpointSlice, find_endpoint_slice}
use krop_controller.Kcp.First.{IsFirst, find_endpoint_slice_iff}

abbrev two_slices : List EndpointSlice
two_slices =
    (record { name = codes "a"; export = codes "other" })
    ∷ (record { name = codes "b"; export = codes "widgets" })
    ∷ []

find_endpoint_slice_iff_example :
    (find_endpoint_slice (λ (_ : Unit {0}). ok two_slices) (codes "widgets") tt ≡ ok (codes "b"))
    ↔ IsFirst (codes "widgets") two_slices (codes "b")
find_endpoint_slice_iff_example =
    find_endpoint_slice_iff (λ (_ : Unit {0}). ok two_slices) (codes "widgets") (codes "b") tt
      two_slices refl
