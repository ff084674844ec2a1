-- ===== src/Process/Passes/Faithful.antt =====
-- What passes of the registrar keep true of the marks, of the cache and of the calls of the hooks.
use mathlib.Core.List.{reverse}
use krop_controller.Base.{
  Text, text_eq, ◌==◌, ◌≡◌, ◌≢◌, ◌⊎◌, inl, inr, ap, ◌∙◌, subst, sym, Bool, true, false, Option,
  some, List, [], ◌∷◌, ◌++◌, arith, Bool-cases,
}
use krop_controller.Base.Result.{Error, Result, ok}
use krop_controller.Api.Object.{Condition}
use krop_controller.Api.Blueprint.{BlueprintSpec, KroSpec, to_kro}
use krop_controller.Registrar.Cache.{GraphCache}
use krop_controller.Registrar.Publish.{Schema, Crd, spec_hash}
use krop_controller.Registrar.Reconcile.{Graph, Call, withdrawn, Site, Registrar}
use krop_controller.Registrar.Reconcile.Announced.{announcement}
use krop_controller.Process.{ServedBlueprint}
use krop_controller.Process.Offered.{latest, IsHonest, IsHonestCall}
use krop_controller.Process.Passes.{Mark, mark_of, no_mark, Offers, IsGenuine}
use krop_controller.Process.Passes.Origin.{Origin, one_offer, Origin-moved}
use krop_controller.Process.Passes.Outcome.{IsBuilt, Announced, offer_of}

module _ {W : Type 0} (digest : Text → Text) (marshal : BlueprintSpec → Result Text)
    (build : Text → KroSpec → W → Result Graph) (convert : Crd → Text → Result Schema)
    (marks : Text → W → Option Mark) (Known : Text → BlueprintSpec → Type 0)
    (one_spec : (n hash : Text) (spec spec' : BlueprintSpec)
      → Known n spec
      → Known n spec'
      → spec_hash digest marshal spec ≡ ok hash
      → spec_hash digest marshal spec' ≡ ok hash
      → spec ≡ spec')
    (steady : (n : Text) (spec : BlueprintSpec) (w w' : W) (g g' : Graph)
      → Known n spec
      → build n (to_kro spec).0 w ≡ ok g
      → build n (to_kro spec).0 w' ≡ ok g'
      → g ≡ g') where
  abbrev IsOffer : Text → BlueprintSpec → Text → Text → ServedBlueprint → Type 0
  IsOffer = Offers digest marshal build convert Known

  module _
      (nonempty : (n : Text) (spec : BlueprintSpec)
        → Known n spec
        → spec_hash digest marshal spec ≢ ok [])
      (distinct : (n n' h h' e : Text) (spec spec' : BlueprintSpec) (sb sb' : ServedBlueprint)
        → Offers digest marshal build convert Known n spec h e sb
        → Offers digest marshal build convert Known n' spec' h' e sb'
        → n ≡ n')
      (set_condition : List Condition → Condition → List Condition) (error_text : Error → Text)
      (r : Registrar W) where
    abbrev From : W → Text → ServedBlueprint → Type 0
    From = Origin digest marshal build convert marks Known one_spec steady

    pub record Faithful (w : W) (cache : GraphCache Graph) (h : List Call) : Type 0 where
      pub genuine :
          (n : Text) (x : Mark)
          → marks n w ≡ some x
          → IsGenuine digest marshal build convert Known n x
      pub built : IsBuilt digest marshal build convert r marks Known cache
      pub honest : IsHonest h
      pub origin :
          (e : Text) (sb : ServedBlueprint)
          → latest h e ≡ some sb
          → Origin digest marshal build convert marks Known one_spec steady w e sb

    abbrev Holds : Site W → Type 0
    Holds s = Faithful s.world s.cache (reverse s.calls)

    pub Faithful-moved :
        (w w' : W) (cache cache' : GraphCache Graph) (h : List Call)
        → ((n : Text) (x : Mark) → marks n w' ≡ some x → (marks n w ≡ some x) ⊎ (x ≡ no_mark))
        → IsBuilt digest marshal build convert r marks Known cache'
        → Faithful w cache h
        → Faithful w' cache' h
    Faithful-moved w w' cache cache' h moved built f = record {
      genuine = λ n x there. elim (moved n x there) [
        | inl before ↦ f.genuine n x before
        | inr empty ↦ inl empty
      ];
      built = built;
      honest = f.honest;
      origin = λ e sb there.
          Origin-moved digest marshal build convert marks Known one_spec steady w w' e sb moved
            (f.origin e sb there);
    }

    pub Faithful-withdrawn :
        (w : W) (cache : GraphCache Graph) (h : List Call) (export : Text)
        → Faithful w cache h
        → Faithful w cache (withdrawn export ∷ h)
    Faithful-withdrawn w cache h export f = record {
      genuine = f.genuine;
      built = f.built;
      honest = (tt, f.honest);
      origin = λ e sb there. f.origin e sb (ground (arith, there));
    }

    -- A publish that the status makes unchanged brings what is offered already.
    Announced-IsHonest :
        (s : Site W) (end : Site W) (result : Result Bool)
        → Holds s
        → (a : Announced digest marshal build convert r marks Known s result end)
        → IsHonestCall (announcement a.bp a.hash a.g a.routing a.ars) (latest (reverse s.calls))
    Announced-IsHonest s end result f a same sb there =
        let o = f.origin export sb there in
        let named =
          distinct o.name a.bp.name o.hash a.hash export o.spec a.bp.spec _ _ o.offers a.offers in
        let hash_is = o.current a.bp.status.observed_spec_hash (
          ap (λ (k : Text). marks k s.world) named
          ∙ a.read
          ∙ ap (λ (k : Text). some (record { export = k; hash = a.bp.status.observed_spec_hash }))
              (status_export (f.genuine a.bp.name (mark_of a.bp) a.read))) in
        (one_offer digest marshal build convert marks Known one_spec steady a.bp.name a.hash export
          export o.spec a.bp.spec sb _
          (subst (λ (k : Text). IsOffer k o.spec a.hash export sb) named
            (subst (λ (k : Text). IsOffer o.name o.spec k export sb) (sym hash_is ∙ observed)
              o.offers))
          a.offers).1
      where
        export : Text
        export = a.ars.plural ++ (b'.' ∷ a.ars.group)

        observed : a.bp.status.observed_spec_hash ≡ a.hash
        observed = ground (arith, same)

        status_export :
            IsGenuine digest marshal build convert Known a.bp.name (mark_of a.bp)
            → a.bp.status.exported_api ≡ export
        status_export (inl empty) = absurd (
            nonempty a.bp.name a.bp.spec a.offers.known
              (a.offers.hashed ∙ ap ok (sym observed ∙ ap (λ (x : Mark). x.hash) empty)))
        status_export (inr (spec, old, o)) =
            (one_offer digest marshal build convert marks Known one_spec steady a.bp.name a.hash
              a.bp.status.exported_api export spec a.bp.spec old _
              (subst (λ (k : Text). IsOffer a.bp.name spec k a.bp.status.exported_api old) observed
                o)
              a.offers).0

    pub Announced-IsGenuine :
        (s : Site W) (end : Site W) (result : Result Bool)
        → ((n : Text) (x : Mark)
            → marks n s.world ≡ some x
            → IsGenuine digest marshal build convert Known n x)
        → Announced digest marshal build convert r marks Known s result end
        → (n : Text) (x : Mark) → marks n end.world ≡ some x
        → IsGenuine digest marshal build convert Known n x
    Announced-IsGenuine s end result genuine a n x there = elim (a.moved n x there) [
      | inl before ↦ genuine n x before
      | inr (named, same) ↦ inr (
        a.bp.spec,
        offer_of a.g a.routing a.ars,
        subst (λ (k : Text). IsOffer k a.bp.spec x.hash x.export (offer_of a.g a.routing a.ars))
            (sym named)
            (subst
              (λ (y : Mark).
                IsOffer a.bp.name a.bp.spec y.hash y.export (offer_of a.g a.routing a.ars))
              (sym same) a.offers),
      )
    ]

    pub Faithful-Announced :
        (s : Site W) (end : Site W) (result : Result Bool) (b : Bool)
        → Holds s
        → (a : Announced digest marshal build convert r marks Known s result end) → result ≡ ok b
        → Faithful end.world end.cache
            (announcement a.bp a.hash a.g a.routing a.ars ∷ reverse s.calls)
    Faithful-Announced s end result b f a done = record {
      genuine = Announced-IsGenuine s end result f.genuine a;
      built = a.cached;
      honest = (Announced-IsHonest s end result f a, f.honest);
      origin = λ e sb there. from e sb there (Bool-cases (export == e));
    }
      where
        export : Text
        export = a.ars.plural ++ (b'.' ∷ a.ars.group)

        from :
            (e : Text) (sb : ServedBlueprint)
            → latest (announcement a.bp a.hash a.g a.routing a.ars ∷ reverse s.calls) e ≡ some sb
            → ((export == e) ≡ true) ⊎ ((export == e) ≡ false)
            → From end.world e sb
        from e sb there (inl same) =
            let e_is : export ≡ e = ground (arith, same) in
            let sb_is : offer_of a.g a.routing a.ars ≡ sb = ground (arith, there, same) in
            record {
              name = a.bp.name;
              spec = a.bp.spec;
              hash = a.hash;
              offers =
                  subst (λ (k : Text). IsOffer a.bp.name a.bp.spec a.hash k sb) e_is
                    (subst (λ (k : ServedBlueprint). IsOffer a.bp.name a.bp.spec a.hash export k)
                      sb_is a.offers);
              current = λ h m. ap (λ (x : Mark). x.hash) (a.written b _ done m);
            }
        from e sb there (inr other) =
            let o = f.origin e sb (ground (arith, there, other)) in
            record {
              name = o.name;
              spec = o.spec;
              hash = o.hash;
              offers = o.offers;
              current = λ h m. elim (a.moved o.name _ m) [
                | inl before ↦ o.current h before
                | inr (_, same) ↦ absurd (ground (arith, other, ap (λ (x : Mark). x.export) same))
              ];
            }
