-- ===== src/Engine/Apply.antt =====
-- internal/engine/apply.go and reader.go: the appliers of one target, each around the next, and the
-- readers.
use krop_controller.Base.{Text, text_eq, if◌then◌else◌, ◌==◌, List, [], ◌∷◌, ◌++◌}
use krop_controller.Base.Dict.{Dict, copy}
use krop_controller.Base.Result.{Result, Prog, pure, reads, ◌>>=◌, ◌>>◌}
use krop_controller.Api.Object.{Gvk, Object, OwnerRef, ChildId, child_id}
use krop_controller.Api.Client.{Client, Selector, list_gvk}
use krop_controller.Engine.Route.{Target, target_eq}

abbrev pub Applier : Type 0 → Type 0
Applier S = Object → Prog S Object

-- The state of one pass: all clusters, and the sinks of the recording appliers.
pub record Pass (W : Type 0) : Type 0 where
  pub world : W
  pub applied : Target → List ChildId

module _ {W A : Type 0} where
  -- A call of a client leaves the sinks alone.
  abbrev pub on_world : Prog W A → Prog (Pass W) A
  on_world m p = let (r, w) = m p.world in (r, record p { world = w })

-- `*sink = append(*sink, id)`
abbrev pub add_child : Target → ChildId → (Target → List ChildId) → Target → List ChildId
add_child t id applied u = if u == t then applied u ++ (id ∷ []) else applied u

module _ {W : Type 0} where
  abbrev record_child : Target → ChildId → Prog (Pass W) (Unit {0})
  record_child t id p = pure tt (record p { applied = add_child t id p.applied })

  unfoldable pub recording_applier : Target → Applier (Pass W) → Applier (Pass W)
  recording_applier sink inner o = do
    observed ← inner o
    record_child sink (child_id observed)
    pure observed

  unfoldable pub ssa_applier : Client W → Applier (Pass W)
  ssa_applier c o = do on_world (c.apply o); on_world (reads (c.get o.gvk o.namespace o.name))

  unfoldable pub qualifying_applier : Applier (Pass W) → (Text → Text) → Applier (Pass W)
  qualifying_applier inner rename o = inner (record o { name = rename o.name })

  unfoldable pub labeling_applier : Applier (Pass W) → Dict Text Text → Applier (Pass W)
  labeling_applier inner labels o = inner (record o { labels = copy o.labels labels })

-- `GetAPIVersion()`: the group and the version, the version alone for the core group.
abbrev pub api_version : Gvk → Text
api_version g = if g.group == [] then g.version else g.group ++ (b'/' ∷ g.version)

abbrev pub owner_ref : Object → OwnerRef
owner_ref owner = record {
  api_version = api_version owner.gvk;
  kind = owner.gvk.kind;
  name = owner.name;
  uid = owner.uid;
}

module _ {W : Type 0} where
  unfoldable pub owner_ref_applier : Applier (Pass W) → Object → Applier (Pass W)
  owner_ref_applier inner owner o = inner (record o { owner_refs = owner_ref owner ∷ [] })

-- `Reader`
pub record Reader (S : Type 0) : Type 0 where
  pub get : Gvk → Text → Text → S → Result Object
  pub list : Gvk → Text → Selector → S → Result (List Object)

module _ {W : Type 0} where
  -- The kind of the list that is asked for is the items' kind with "List" behind it.
  unfoldable pub client_reader : Client W → Reader (Pass W)
  client_reader c = record {
    get = λ g ns name p. c.get g ns name p.world;
    list = λ g ns sel p. c.list (list_gvk g) ns sel p.world;
  }
