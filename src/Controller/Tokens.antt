-- ===== src/Controller/Tokens.antt =====
-- The "group/version/Kind" tokens in which a liveness record keeps the kinds of an instance's
-- children: `childGVKString` of reconciler.go writes them, `parseGVKToken` of sweeper.go reads them.
pub mod RoundTrip
use krop_controller.Base.{
  Text, ◌==◌, text_eq, if◌then◌else◌, Bool, true, false, ◌||◌, Option, none, some, List, [], ◌∷◌,
  ◌++◌, map,
}
use krop_controller.Base.Bytes.{codes, byte_eq, split, split_in_three, join, trim_space}
use krop_controller.Base.Result.{Result, ok, err, failure}
use krop_controller.Api.Object.{Gvk}

unfoldable pub gvk_token : Gvk → Text
gvk_token g = g.group ++ (b'/' ∷ (g.version ++ (b'/' ∷ g.kind)))

-- `strings.Join(tokens, ",")`
unfoldable pub gvk_string : List Gvk → Text
unfolding join gvk_token
gvk_string gvks = join b',' (map gvk_token gvks)

abbrev of_parts : List Text → Result Gvk
of_parts (group ∷ version ∷ kind ∷ []) =
    if version == [] || kind == []
    then err (failure (codes "malformed GVK token"))
    else ok (record { group = group; version = version; kind = kind })
of_parts _ = err (failure (codes "malformed GVK token"))

unfoldable pub parse_gvk_token : Text → Result Gvk
unfolding split_in_three
parse_gvk_token token = of_parts (split_in_three b'/' token)

-- The tokens that the sweeper goes by: trimmed, the empty and the malformed ones skipped.
abbrev parsed_token : Text → List Gvk
parsed_token token =
    if token == [] then [] else elim (parse_gvk_token token) [ ok g ↦ g ∷ [] | err _ ↦ [] ]

abbrev parsed_tokens : List Text → List Gvk
parsed_tokens [] = []
parsed_tokens (token ∷ tokens) = parsed_token (trim_space token) ++ parsed_tokens tokens

unfoldable pub parse_gvk_string : Text → List Gvk
unfolding split parse_gvk_token trim_space
parse_gvk_string raw = parsed_tokens (split b',' raw)
