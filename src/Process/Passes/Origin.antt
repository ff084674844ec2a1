-- ===== src/Process/Passes/Origin.antt =====
-- Where a blueprint that an export offers comes from.
use krop_controller.Base.{
  Text, text_eq, ◌≡◌, ◌≢◌, ◌⊎◌, inl, inr, ap, ◌∙◌, sym, Option, some, [], ◌∷◌, ◌++◌,
}
use krop_controller.Base.Result.{Result, ok}
use krop_controller.Api.Object.{Gvk}
use krop_controller.Api.Blueprint.{BlueprintSpec, KroSpec, to_kro}
use krop_controller.Engine.Route.{Routing}
use krop_controller.Registrar.Publish.{Schema, Crd, spec_hash, build_ars}
use krop_controller.Registrar.Reconcile.{Graph, parse_routing}
use krop_controller.Registrar.Reconcile.Announced.{instance_gvk}
use krop_controller.Process.{ServedBlueprint}
use krop_controller.Process.Passes.{Mark, no_mark, Offers}

dotted : (p g : Text) → (p ++ (b'.' ∷ g)) ≢ []
dotted [] g e = cc
dotted (x ∷ p) g e = cc

ok_inj : {A : Type 0} (a b : A) → ok a ≡ ok b → a ≡ b
ok_inj a b e = cc

served_eq :
    (a b : ServedBlueprint) → a.graph ≡ b.graph → a.gvk ≡ b.gvk → a.routing ≡ b.routing → a ≡ b
served_eq a b p q r =
    ap (λ (t : Graph). record { graph = t; gvk = a.gvk; routing = a.routing }) p
    ∙ ap (λ (t : Gvk). record { graph = b.graph; gvk = t; routing = a.routing }) q
    ∙ ap (λ (t : Routing). record { graph = b.graph; gvk = b.gvk; routing = t }) r

module _ {W : Type 0} (digest : Text → Text) (marshal : BlueprintSpec → Result Text)
    (build : Text → KroSpec → W → Result Graph) (convert : Crd → Text → Result Schema)
    (marks : Text → W → Option Mark) (Known : Text → BlueprintSpec → Type 0)
    (one_spec : (n hash : Text) (spec spec' : BlueprintSpec)
      → Known n spec
      → Known n spec'
      → spec_hash digest marshal spec ≡ ok hash
      → spec_hash digest marshal spec' ≡ ok hash
      → spec ≡ spec')
    (steady : (n : Text) (spec : BlueprintSpec) (w w' : W) (g g' : Graph)
      → Known n spec
      → build n (to_kro spec).0 w ≡ ok g
      → build n (to_kro spec).0 w' ≡ ok g'
      → g ≡ g') where
  abbrev IsOffer : Text → BlueprintSpec → Text → Text → ServedBlueprint → Type 0
  IsOffer = Offers digest marshal build convert Known

  -- The blueprint an export offers is that of its status, if the status still names the export.
  pub record Origin (w : W) (export : Text) (sb : ServedBlueprint) : Type 0 where
    pub name : Text
    pub spec : BlueprintSpec
    pub hash : Text
    pub offers : Offers digest marshal build convert Known name spec hash export sb
    pub current : (h : Text) → marks name w ≡ some (record { export = export; hash = h }) → h ≡ hash

  pub one_offer :
      (n h e e' : Text) (spec spec' : BlueprintSpec) (sb sb' : ServedBlueprint)
      → IsOffer n spec h e sb
      → IsOffer n spec' h e' sb'
      → (e ≡ e') × (sb ≡ sb')
  one_offer n h e e' spec spec' sb sb' o o' = (
    sym o.exported ∙ ap (λ (a : Schema). a.plural ++ (b'.' ∷ a.group)) ars ∙ o'.exported,
    served_eq sb sb' graphs kinds routings,
  )
    where
      specs : spec ≡ spec'
      specs = one_spec n h spec spec' o.known o'.known o.hashed o'.hashed

      graphs : sb.graph ≡ sb'.graph
      graphs =
          steady n spec o.world o'.world sb.graph sb'.graph o.known o.built
            (ap (λ (t : BlueprintSpec). build n (to_kro t).0 o'.world) specs ∙ o'.built)

      routings : sb.routing ≡ sb'.routing
      routings =
          ok_inj _ _ (
            sym o.routed ∙ ap (λ (t : BlueprintSpec). parse_routing (to_kro t).1) specs ∙ o'.routed)

      ars : o.ars ≡ o'.ars
      ars =
          ok_inj _ _
            (sym o.schema ∙ ap (λ (t : Graph). build_ars convert t.crd h) graphs ∙ o'.schema)

      kinds : sb.gvk ≡ sb'.gvk
      kinds =
          sym o.kind
          ∙ ap (λ (t : Graph). instance_gvk t o.ars) graphs
          ∙ ap (instance_gvk sb'.graph) ars
          ∙ o'.kind

  pub Origin-moved :
      (w w' : W) (e : Text) (sb : ServedBlueprint)
      → ((n : Text) (x : Mark) → marks n w' ≡ some x → (marks n w ≡ some x) ⊎ (x ≡ no_mark))
      → Origin w e sb
      → Origin w' e sb
  Origin-moved w w' e sb moved o = record {
    name = o.name;
    spec = o.spec;
    hash = o.hash;
    offers = o.offers;
    current = λ h there. elim (moved o.name _ there) [
      | inl before ↦ o.current h before
      | inr empty ↦ absurd (dotted _ _ (o.offers.exported ∙ ap (λ (x : Mark). x.export) empty))
    ];
  }
