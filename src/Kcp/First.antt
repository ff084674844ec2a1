-- ===== src/Kcp/First.antt =====
-- Which slice `FindEndpointSlice` returns.
use krop_controller.Base.{
  Text, text_eq, ◌==◌, ◌≡◌, ◌≢◌, ◌↔◌, refl, ap, ◌∙◌, List, [], ◌∷◌, ◌++◌, All, arith, inl, inr,
  Bool-cases,
}
use krop_controller.Base.Result.{Result, ok}
use krop_controller.Kcp.{EndpointSlice, first_slice, find_endpoint_slice}

-- `n` names the first slice of the export.
abbrev pub IsFirst : Text → List EndpointSlice → Text → Type 0
IsFirst export slices n =
    (before : List EndpointSlice) × (s : EndpointSlice) × (after : List EndpointSlice) × (slices
      ≡ before ++ (s ∷ after))
    × All (λ x. x.export ≢ export) before
    × (s.export ≡ export)
    × (s.name ≡ n)

first_slice-IsFirst :
    (export n : Text) (slices : List EndpointSlice)
    → first_slice export slices ≡ ok n
    → IsFirst export slices n
unfolding first_slice
first_slice-IsFirst export n [] e = cc
first_slice-IsFirst export n (s ∷ slices) e = elim (Bool-cases (s.export == export)) [
  | inl hit ↦ ([], s, slices, refl, tt, ground (arith, hit), ground (arith, hit, e))
  | inr miss ↦
      let (before, t, after, q, others, same, named) =
        first_slice-IsFirst export n slices (ground (arith, miss, e)) in
      (
        s ∷ before,
        t,
        after,
        ap (λ (xs : List EndpointSlice). s ∷ xs) q,
        ((λ same'. ground (arith, miss, same')), others),
        same,
        named,
      )
]

first_slice-found :
    (export : Text) (before after : List EndpointSlice) (s : EndpointSlice)
    → All (λ x. x.export ≢ export) before
    → s.export ≡ export
    → first_slice export (before ++ (s ∷ after)) ≡ ok s.name
unfolding first_slice
first_slice-found export [] after s h e = ground (arith, e)
first_slice-found export (x ∷ before) after s h e =
    ground (arith, h.0, first_slice-found export before after s h.1 e)

-- When the list call succeeds, a name is returned exactly if it is that of the first slice of the export.
pub find_endpoint_slice_iff :
    {W : Type 0} (list : W → Result (List EndpointSlice)) (export n : Text) (w : W)
    (slices : List EndpointSlice)
    → list w ≡ ok slices
    → (find_endpoint_slice list export w ≡ ok n) ↔ IsFirst export slices n
unfolding find_endpoint_slice
find_endpoint_slice_iff list export n w slices listed =
    rw (listed, find_endpoint_slice)
      (
        first_slice-IsFirst export n slices,
        λ (before, s, after, q, others, same, named).
            ap (first_slice export) q
            ∙ (first_slice-found export before after s others same ∙ ap (λ (m : Text). ok m) named),
      )
