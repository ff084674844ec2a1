-- ===== src/Registrar/Cache.antt =====
-- internal/registrar/cache.go: the compiled graphs, by blueprint and by the hash of its spec.
pub mod Laws
use krop_controller.Base.{Text, text_eq, Option, none, some, List, [], ◌∷◌, ◌++◌}
use krop_controller.Base.Dict.{Dict, lookup, insert, erase}

-- A graph is of any type `G`.
abbrev pub GraphCache : Type 0 → Type 0
GraphCache G = Dict Text (Dict Text G)

abbrev pub new_graph_cache : {G : Type 0} → GraphCache G
new_graph_cache = []

abbrev pub bp_key : Text → Text → Text
bp_key workspace name = workspace ++ (b'|' ∷ name)

module _ {G : Type 0} where
  unfoldable pub get_graph : Text → Text → Text → GraphCache G → Option G
  get_graph workspace name spec_hash m = elim (lookup (bp_key workspace name) m) [
    | none ↦ none
    | some by_hash ↦ lookup spec_hash by_hash
  ]

  unfoldable pub put_graph : Text → Text → Text → G → GraphCache G → GraphCache G
  put_graph workspace name spec_hash g m = insert (bp_key workspace name) ((spec_hash, g) ∷ []) m

  unfoldable pub delete_graph : Text → Text → GraphCache G → GraphCache G
  delete_graph workspace name m = erase (bp_key workspace name) m
