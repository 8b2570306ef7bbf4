-- ===== src/Info/Indexes.antt =====
-- `parse_index_list` of aerospike_sdk/index_list.py: the indexes that the nodes of a cluster report.
pub mod Laws
use aerospike_client_python.Base.{
  ℕ, Bool, true, false, ◌||◌, not, any, or_false, keep, Bool-cases, Option, none, some,
  Option-cases, is_some, List, [], ◌∷◌, ◌++◌, map, append_assoc, append-nil, ◌≡◌, refl, sym, ap,
  subst, ◌∙◌, inl, inr, if◌then◌else◌,
}
use aerospike_client_python.Base.Dict.{get, put}
use aerospike_client_python.Info.{Text, same_text, is_empty, split, strip}
use aerospike_client_python.Info.Bodies.{Dict, pairs_of, to_dict, Responses}

abbrev pub text_indexname : Text
text_indexname = b'i' ∷ b'n' ∷ b'd' ∷ b'e' ∷ b'x' ∷ b'n' ∷ b'a' ∷ b'm' ∷ b'e' ∷ []

abbrev pub text_ns : Text
text_ns = b'n' ∷ b's' ∷ []

abbrev text_set : Text
text_set = b's' ∷ b'e' ∷ b't' ∷ []

abbrev text_bin : Text
text_bin = b'b' ∷ b'i' ∷ b'n' ∷ []

abbrev text_type : Text
text_type = b't' ∷ b'y' ∷ b'p' ∷ b'e' ∷ []

abbrev text_indextype : Text
text_indextype = b'i' ∷ b'n' ∷ b'd' ∷ b'e' ∷ b'x' ∷ b't' ∷ b'y' ∷ b'p' ∷ b'e' ∷ []

abbrev text_context : Text
text_context = b'c' ∷ b'o' ∷ b'n' ∷ b't' ∷ b'e' ∷ b'x' ∷ b't' ∷ []

abbrev text_state : Text
text_state = b's' ∷ b't' ∷ b'a' ∷ b't' ∷ b'e' ∷ []

abbrev text_numeric : Text
text_numeric = b'n' ∷ b'u' ∷ b'm' ∷ b'e' ∷ b'r' ∷ b'i' ∷ b'c' ∷ []

abbrev text_integer : Text
text_integer = b'i' ∷ b'n' ∷ b't' ∷ b'e' ∷ b'g' ∷ b'e' ∷ b'r' ∷ []

unfoldable pub canonical_index_type : Text → Text
canonical_index_type name = if same_text name text_numeric then text_integer else name

-- The public shape of an index; `none` is a key that the dictionary does not have.
pub record Index : Type 0 where
  pub namespace : Text
  pub set_name : Text
  pub bin : Text
  pub name : Text
  pub value_type : Option Text
  pub index_type : Option Text
  pub context : Option Text
  pub state : Option Text

-- `fields.get(key, "")`
abbrev pub or_empty : Option Text → Text
or_empty none = []
or_empty (some text) = text

abbrev pub field : Text → Dict → Text
field key fields = or_empty (get same_text key fields)

abbrev canonical : Option Text → Option Text
unfolding canonical_index_type
canonical none = none
canonical (some name) = some (canonical_index_type name)

unfoldable pub index_of : Dict → Index
unfolding canonical
index_of fields = record {
  namespace = field text_ns fields;
  set_name = field text_set fields;
  bin = field text_bin fields;
  name = field text_indexname fields;
  value_type = canonical (get same_text text_type fields);
  index_type = get same_text text_indextype fields;
  context = get same_text text_context fields;
  state = get same_text text_state fields;
}

-- Whether a record names no index, or one of a namespace that is not asked for.
abbrev pub other_namespace : Option Text → Text → Bool
other_namespace none ns = false
other_namespace (some wanted) ns = not (same_text ns wanted)

unfoldable pub is_skipped : Option Text → Dict → Bool
is_skipped namespace fields =
    is_empty (field text_indexname fields)
    || (is_empty (field text_ns fields) || other_namespace namespace (field text_ns fields))

abbrev pub IndexMap : Type 0
IndexMap = List (Text × Index)

module _ (is_space : ℕ → Bool) (namespace : Option Text) where
  -- The body of the loop over the records; the map is keyed by the name of the index.
  unfoldable pub add_record : Dict → IndexMap → IndexMap
  unfolding index_of is_skipped
  add_record fields index_map =
      let name = field text_indexname fields in
      if is_skipped namespace fields
      then index_map
      else if is_some (get same_text name index_map)
      then index_map
      else index_map ++ (name, index_of fields) ∷ []

  abbrev pub add_entry : Text → IndexMap → IndexMap
  unfolding add_record
  add_entry entry index_map =
      let stripped = strip is_space entry in
      if is_empty stripped
      then index_map
      else add_record (to_dict (pairs_of (split b':' stripped))) index_map

  abbrev pub add_entries : List Text → IndexMap → IndexMap
  unfolding add_entry
  add_entries [] index_map = index_map
  add_entries (entry ∷ entries) index_map = add_entries entries (add_entry entry index_map)

  abbrev pub add_values : Dict → IndexMap → IndexMap
  unfolding add_entries
  add_values [] index_map = index_map
  add_values ((k, v) ∷ values) index_map =
      add_values values (if is_empty v then index_map else add_entries (split b';' v) index_map)

  abbrev pub add_nodes : Responses → IndexMap → IndexMap
  unfolding add_values
  add_nodes [] index_map = index_map
  add_nodes ((node, values) ∷ responses) index_map =
      add_nodes responses (add_values values index_map)

  unfoldable pub parse_index_list : Responses → List Index
  unfolding add_nodes
  parse_index_list responses = map (λ e. e.1) (add_nodes responses [])

  -- The records of a response, before any is skipped.
  abbrev pub entry_records : List Text → List Dict
  entry_records [] = []
  entry_records (entry ∷ entries) =
      let rest = entry_records entries in
      let stripped = strip is_space entry in
      if is_empty stripped then rest else to_dict (pairs_of (split b':' stripped)) ∷ rest

  abbrev pub value_records : Dict → List Dict
  value_records [] = []
  value_records ((k, v) ∷ values) =
      let rest = value_records values in
      if is_empty v then rest else entry_records (split b';' v) ++ rest

  abbrev pub all_records : Responses → List Dict
  all_records [] = []
  all_records ((node, values) ∷ responses) = value_records values ++ all_records responses
