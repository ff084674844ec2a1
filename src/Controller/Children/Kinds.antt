-- ===== src/Controller/Children/Kinds.antt =====
-- Which kinds `childGVKs` lists.
use krop_controller.Base.{
  ◌==◌, contains, add_new, contains-add_new, NoRepeats, NoRepeats-add_new, NoRepeats-if, text_eq,
  ◌≡◌, Bool, true, false, ◌&&◌, ◌||◌, List, [], ◌∷◌, All, All-map, ◌∙◌, arith,
}
use krop_controller.Api.Object.{Gvk, gvk_eq}
use krop_controller.Engine.Route.{Target, Routing}
use krop_controller.Engine.Graph.{Node}
use krop_controller.Controller.Config.{Reconciler}
use krop_controller.Controller.Children.{is_child_of, add_new, collect_gvks, child_gvks}

-- Some template node of the target makes objects of kind `g`.
abbrev pub makes : Routing → Target → List Node → Gvk → Bool
makes routing target [] g = false
makes routing target (n ∷ ns) g =
    (is_child_of routing target n && n.template_gvk == g) || makes routing target ns g

contains-collect_gvks :
    (routing : Routing) (target : Target) (ns : List Node) (out : List Gvk) (g : Gvk)
    → contains (collect_gvks routing target ns out) g
      ≡ (contains out g || makes routing target ns g)
unfolding collect_gvks
contains-collect_gvks routing target [] out g = ground arith
contains-collect_gvks routing target (n ∷ ns) out g = ground (
  arith,
  contains-collect_gvks routing target ns out g,
  contains-collect_gvks routing target ns (add_new n.template_gvk out) g,
  contains-add_new n.template_gvk out g,
)

NoRepeats-collect_gvks :
    (routing : Routing) (target : Target) (ns : List Node) (out : List Gvk)
    → NoRepeats out
    → NoRepeats (collect_gvks routing target ns out)
unfolding collect_gvks
NoRepeats-collect_gvks routing target [] out h = h
NoRepeats-collect_gvks routing target (n ∷ ns) out h = NoRepeats-collect_gvks routing target ns _ (
    NoRepeats-if (is_child_of routing target n) (add_new n.template_gvk out) out
      (NoRepeats-add_new n.template_gvk out h) h)

pub child_gvks_exact :
    {W : Type 0} (r : Reconciler W) (t : Target)
    → ((g : Gvk) → contains (child_gvks r t) g ≡ makes r.routing t r.graph g)
      × NoRepeats (child_gvks r t)
unfolding child_gvks
child_gvks_exact r t = (
  λ g. contains-collect_gvks r.routing t r.graph [] g,
  NoRepeats-collect_gvks r.routing t r.graph [] tt,
)

makes-All :
    (routing : Routing) (t : Target) (ns : List Node)
    → All (λ n. is_child_of routing t n ≡ true → makes routing t ns n.template_gvk ≡ true) ns
makes-All routing t [] = tt
makes-All routing t (n ∷ ns) = (
  (λ child. ground arith),
  All-map (λ m. is_child_of routing t m ≡ true → makes routing t ns m.template_gvk ≡ true)
      (λ m. is_child_of routing t m ≡ true → makes routing t (n ∷ ns) m.template_gvk ≡ true) ns
      (λ m h child. ground (arith, h child)) (makes-All routing t ns),
)

-- Each template node's kind is among them.
pub child_gvks_cover :
    {W : Type 0} (r : Reconciler W) (t : Target)
    → All
        (λ n. is_child_of r.routing t n ≡ true → contains (child_gvks r t) n.template_gvk ≡ true)
        r.graph
child_gvks_cover r t =
    All-map
      (λ n. is_child_of r.routing t n ≡ true → makes r.routing t r.graph n.template_gvk ≡ true) _
      r.graph (λ n h child. (child_gvks_exact r t).0 n.template_gvk ∙ h child)
      (makes-All r.routing t r.graph)
