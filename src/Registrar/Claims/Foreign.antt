-- ===== src/Registrar/Claims/Foreign.antt =====
-- Which resources `ForeignConsumerGRs` returns.
use krop_controller.Base.{
  ◌==◌, text_eq, contains, add_new, contains-add_new, NoRepeats, NoRepeats-add_new, NoRepeats-if,
  if◌then◌else◌, ◌≡◌, refl, Bool, true, false, not, ◌&&◌, ◌||◌, List, [], ◌∷◌, arith,
}
use krop_controller.Api.Object.{Gr, gr_eq}
use krop_controller.Engine.Route.{target_eq, consumer, Routing, target_for_node}
use krop_controller.Engine.Graph.{Node, is_external}
use krop_controller.Registrar.Claims.{collect_foreign, foreign_consumer_grs}

-- Some consumer-target node, external or not as `ext` says, has the resource `gr`, and it is not the
-- instance's.
abbrev pub needs : Bool → Gr → Routing → List Node → Gr → Bool
needs ext instance_gr routing [] gr = false
needs ext instance_gr routing (n ∷ ns) gr =
    ((target_for_node n.id routing == consumer)
      && (not (n.gr == instance_gr)
          && ((if is_external n.type then ext else not ext) && n.gr == gr)))
    || needs ext instance_gr routing ns gr

contains-if :
    (b : Bool) (xs ys : List Gr) (gr : Gr)
    → contains (if b then xs else ys) gr ≡ (if b then contains xs gr else contains ys gr)
contains-if true xs ys gr = refl
contains-if false xs ys gr = refl

module _ (instance_gr : Gr) (routing : Routing) where
  contains-collect_foreign :
      (ns : List Node) (writable external : List Gr) (gr : Gr)
      → (contains (collect_foreign instance_gr routing ns writable external).0 gr
          ≡ (contains writable gr || needs false instance_gr routing ns gr))
        × (contains (collect_foreign instance_gr routing ns writable external).1 gr
            ≡ (contains external gr || needs true instance_gr routing ns gr))
  unfolding collect_foreign
  contains-collect_foreign [] writable external gr = (ground arith, ground arith)
  contains-collect_foreign (n ∷ ns) writable external gr =
      let skipped = not (target_for_node n.id routing == consumer) || n.gr == instance_gr in
      let keep_writable = skipped || is_external n.type in
      let add_external = not skipped && is_external n.type in
      let (w, e) =
        contains-collect_foreign ns (if keep_writable then writable else add_new n.gr writable)
          (if add_external then add_new n.gr external else external) gr in
      (
        rw
            (
              w,
              contains-if keep_writable writable (add_new n.gr writable) gr,
              contains-add_new n.gr writable gr,
            )
            ground arith,
        rw
            (
              e,
              contains-if add_external (add_new n.gr external) external gr,
              contains-add_new n.gr external gr,
            )
            ground arith,
      )

  NoRepeats-collect_foreign :
      (ns : List Node) (writable external : List Gr)
      → NoRepeats writable
      → NoRepeats external
      → NoRepeats (collect_foreign instance_gr routing ns writable external).0
        × NoRepeats (collect_foreign instance_gr routing ns writable external).1
  unfolding collect_foreign
  NoRepeats-collect_foreign [] writable external w e = (w, e)
  NoRepeats-collect_foreign (n ∷ ns) writable external w e =
      NoRepeats-collect_foreign ns _ _
        (NoRepeats-if _ writable (add_new n.gr writable) w (NoRepeats-add_new n.gr writable w))
        (NoRepeats-if _ (add_new n.gr external) external (NoRepeats-add_new n.gr external e) e)

-- The writable resources are exactly those of the consumer-target template nodes, and the external
-- ones exactly those of the consumer-target external references, the instance's own resource left out
-- of both, and neither list names a resource twice.
pub foreign_consumer_grs_exact :
    (nodes : List Node) (instance_gr : Gr) (routing : Routing)
    → let (writable, external) = foreign_consumer_grs nodes instance_gr routing in
      ((gr : Gr)
        → (contains writable gr ≡ needs false instance_gr routing nodes gr)
          × (contains external gr ≡ needs true instance_gr routing nodes gr))
      × NoRepeats writable
      × NoRepeats external
unfolding foreign_consumer_grs
foreign_consumer_grs_exact nodes instance_gr routing =
    let (w, e) = NoRepeats-collect_foreign instance_gr routing nodes [] [] tt tt in
    (λ gr. contains-collect_foreign instance_gr routing nodes [] [] gr, w, e)
