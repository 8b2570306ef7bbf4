-- ===== src/Info/Bodies.antt =====
-- aerospike_sdk/info_shared.py: the bodies that the info protocol answers with.
use aerospike_client_python.Base.{
  ℕ, Bool, true, false, any, Option, none, some, List, [], ◌∷◌, ◌++◌, if◌then◌else◌,
}
use aerospike_client_python.Base.Dict.{get, put}
use aerospike_client_python.Info.{Text, same_text, is_empty, split, split_once, strip}

abbrev pub Dict : Type 0
Dict = List (Text × Text)

-- The pieces that hold a `=`, each at its first one.
abbrev pub keep_some : Option (Text × Text) → Dict → Dict
keep_some none rest = rest
keep_some (some pair) rest = pair ∷ rest

abbrev pub pairs_of : List Text → Dict
pairs_of [] = []
pairs_of (piece ∷ pieces) = keep_some (split_once b'=' piece) (pairs_of pieces)

-- `dict(pairs)`: a later pair of a key that is there takes the value.
abbrev pub dict_from : Dict → Dict → Dict
dict_from d [] = d
dict_from d ((k, v) ∷ pairs) = dict_from (put same_text k v d) pairs

abbrev pub to_dict : Dict → Dict
to_dict pairs = dict_from [] pairs

unfoldable pub parse_info_body : Text → Dict
parse_info_body body = to_dict (pairs_of (split b';' body))

-- `{node: {command: body}}`
abbrev pub Responses : Type 0
Responses = List (Text × Dict)

unfoldable pub single_info_body : Option Dict → Text → Option Text
single_info_body none command = none
single_info_body (some []) command = none
single_info_body (some ((k, v) ∷ rest)) command = elim (get same_text command ((k, v) ∷ rest)) [
  | some body ↦ some body
  | none ↦ if is_empty rest then some v else none
]

module _ (is_space : ℕ → Bool) where
  abbrev keep_fields : Dict → List Dict → List Dict
  keep_fields [] rest = rest
  keep_fields (f ∷ fields) rest = (f ∷ fields) ∷ rest

  abbrev pub record_of : Text → Dict
  record_of entry = to_dict (pairs_of (split b':' entry))

  abbrev pub records_of : List Text → List Dict
  records_of [] = []
  records_of (entry ∷ entries) =
      let rest = records_of entries in
      let stripped = strip is_space entry in
      if is_empty stripped then rest else keep_fields (record_of stripped) rest

  unfoldable pub parse_info_records : Text → List Dict
  parse_info_records body = records_of (split b';' body)

  -- `out.add(item)` of a set, in the order of the first additions.
  abbrev pub add : Text → List Text → List Text
  add item out = if any (same_text item) out then out else out ++ item ∷ []

  abbrev pub add_values : (Text → List Text → List Text) → Dict → List Text → List Text
  add_values take [] out = out
  add_values take ((k, v) ∷ values) out =
      add_values take values (if is_empty v then out else take v out)

  abbrev pub merge : (Text → List Text → List Text) → Responses → List Text → List Text
  merge take [] out = out
  merge take ((node, values) ∷ responses) out = merge take responses (add_values take values out)

  unfoldable pub merge_scalar_set : Responses → List Text
  merge_scalar_set responses = merge (λ value out. add (strip is_space value) out) responses []

  abbrev pub add_items : List Text → List Text → List Text
  add_items [] out = out
  add_items (item ∷ items) out =
      let stripped = strip is_space item in
      add_items items (if is_empty stripped then out else add stripped out)

  unfoldable pub merge_delimited_set : ℕ → Responses → List Text
  merge_delimited_set sep responses =
      merge (λ value out. add_items (split sep value) out) responses []

  -- `lower` is Python's lower case of a text.
  module _ (lower : Text → Text) where
    abbrev pub true_text : Text
    true_text = b't' ∷ b'r' ∷ b'u' ∷ b'e' ∷ []

    abbrev pub stable_values : Dict → Bool
    stable_values [] = true
    stable_values ((k, v) ∷ values) =
        let rest = stable_values values in if same_text (lower v) true_text then rest else false

    abbrev pub stable_nodes : Responses → Bool
    stable_nodes [] = true
    stable_nodes ((node, values) ∷ responses) =
        let rest = stable_nodes responses in if stable_values values then rest else false

    unfoldable pub all_nodes_stable : Responses → Bool
    all_nodes_stable responses = if is_empty responses then false else stable_nodes responses
