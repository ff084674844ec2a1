-- ===== src/Tests/Server.antt =====
-- A provider workspace whose server keeps the status of a blueprint apart.
use krop_controller.Base.{
  Text, text_eq, ◌==◌, if◌then◌else◌, ◌≡◌, ◌⊎◌, inl, inr, refl, ap, ◌∙◌, sym, Bool, true, Option,
  none, some, arith, Bool-cases,
}
use krop_controller.Base.Bytes.{codes, byte_eq}
use krop_controller.Base.Dict.{lookup, insert, lookup-insert}
use krop_controller.Base.Result.{not_found, ok, err, Prog}
use krop_controller.Api.Object.{gr_eq}
use krop_controller.Api.Blueprint.{Blueprint}
use krop_controller.Engine.Route.{target_eq}
use krop_controller.Registrar.Publish.{Provider}
use krop_controller.Process.Passes.{Mark, mark_of, IsMarked}
use krop_controller.Tests.Workspace.{Workspace, memory_provider, found}

abbrev pub db : Text
db = codes "databases"

abbrev pub marked_with : Option Blueprint → Option Mark
marked_with none = none
marked_with (some bp) = some (mark_of bp)

abbrev pub marks : Text → Workspace → Option Mark
marks n w = marked_with (lookup n w.blueprints)

abbrev pub under_name : Text → Option Blueprint → Option Blueprint
under_name n none = none
under_name n (some bp) = some (record bp { name = n })

abbrev pub stored : Text → Blueprint → Workspace → Workspace
stored n bp w = record w { blueprints = insert n bp w.blueprints }

abbrev write_spec : Blueprint → Option Blueprint → Prog Workspace (Unit {0})
write_spec bp none w = (err not_found, w)
write_spec bp (some old) w = (ok tt, stored bp.name (record bp { status = old.status }) w)

abbrev write_status : Blueprint → Option Blueprint → Prog Workspace (Unit {0})
write_status bp none w = (err not_found, w)
write_status bp (some old) w = (ok tt, stored bp.name (record old { status = bp.status }) w)

unfoldable pub server : Provider Workspace
server = record memory_provider {
  get_blueprint = λ n w. found (under_name n (lookup n w.blueprints));
  update_blueprint = λ bp w. write_spec bp (lookup bp.name w.blueprints) w;
  update_blueprint_status = λ bp w. write_status bp (lookup bp.name w.blueprints) w;
}

found_under :
    (n : Text) (o : Option Blueprint) (bp : Blueprint)
    → found (under_name n o) ≡ ok bp
    → (bp.name ≡ n) × (marked_with o ≡ some (mark_of bp))
found_under n none bp e = cc
found_under n (some old) bp e = (
  ap (λ (b : Blueprint). b.name) (sym (same _ bp e)),
  ap (λ (b : Blueprint). some (mark_of b)) (same _ bp e),
)
  where
    same : (a b : Blueprint) → ok a ≡ ok b → a ≡ b
    same a b q = cc

marks-stored :
    (n k : Text) (bp : Blueprint) (w : Workspace)
    → marks n (stored k bp w) ≡ (if k == n then some (mark_of bp) else marks n w)
marks-stored n k bp w = ground (arith, lookup-insert k n bp w.blueprints)

some_mark : (x y : Mark) → some x ≡ some y → x ≡ y
some_mark x y e = cc

-- What a write puts there, or what was there before.
pub stored-cases :
    (n k : Text) (bp : Blueprint) (x : Mark) (w : Workspace)
    → marks n (stored k bp w) ≡ some x
    → ((k ≡ n) × (x ≡ mark_of bp)) ⊎ (marks n w ≡ some x)
stored-cases n k bp x w h = elim (Bool-cases (k == n)) [
  | inl same ↦ inl (
    ground (arith, same),
    some_mark x _ (
        sym h
        ∙ marks-stored n k bp w
        ∙ ap (λ (b : Bool). if b then some (mark_of bp) else marks n w) same),
  )
  | inr other ↦ inr (
      sym (
        marks-stored n k bp w ∙ ap (λ (b : Bool). if b then some (mark_of bp) else marks n w) other)
      ∙ h)
]

spec_written :
    (bp : Blueprint) (o : Option Blueprint) (n : Text) (x : Mark) (w : Workspace)
    → lookup bp.name w.blueprints ≡ o
    → marks n (write_spec bp o w).1 ≡ some x
    → marks n w ≡ some x
spec_written bp none n x w e h = h
spec_written bp (some old) n x w e h = elim (stored-cases n bp.name _ x w h) [
  | inl (named, same) ↦
      ap (λ (k : Text). marks k w) (sym named) ∙ ap marked_with e ∙ ap some (sym same)
  | inr before ↦ before
]

status_written :
    (bp : Blueprint) (o : Option Blueprint) (n : Text) (x : Mark) (w : Workspace)
    → marks n (write_status bp o w).1 ≡ some x
    → (marks n w ≡ some x) ⊎ ((n ≡ bp.name) × (x ≡ mark_of bp))
status_written bp none n x w h = inl h
status_written bp (some old) n x w h = elim (stored-cases n bp.name _ x w h) [
  | inl (named, same) ↦ inr (sym named, same)
  | inr before ↦ inl before
]

status_succeeded :
    (bp : Blueprint) (o : Option Blueprint) (x : Mark) (w : Workspace)
    → (write_status bp o w).0 ≡ ok tt
    → marks bp.name (write_status bp o w).1 ≡ some x
    → x ≡ mark_of bp
status_succeeded bp none x w done h = cc
status_succeeded bp (some old) x w done h = some_mark x _ (
    sym h
    ∙ marks-stored bp.name bp.name _ w
    ∙ ap (λ (b : Bool). if b then some (mark_of bp) else marks bp.name w) itself)
  where
    itself : (bp.name == bp.name) ≡ true
    itself = ground arith

pub server-IsMarked : IsMarked marks server
unfolding server memory_provider
server-IsMarked = record {
  found = λ n bp w h. found_under n (lookup n w.blueprints) bp h;
  status_written = λ bp n x w h. status_written bp (lookup bp.name w.blueprints) n x w h;
  status_succeeded = λ bp x w done h. status_succeeded bp (lookup bp.name w.blueprints) x w done h;
  blueprint_updated = λ bp n x w h. spec_written bp _ n x w refl h;
  schema_created = λ y n x w h. h;
  schema_deleted = λ k n x w h. h;
  export_applied = λ y n x w h. h;
  export_deleted = λ k n x w h. h;
}
