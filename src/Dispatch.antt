-- ===== src/Dispatch.antt =====
-- What the dispatchers of aerospike_sdk/aio/operations/query.py and the row policies of
-- aerospike_sdk/query_shared.py share: the settings and the modes that a builder has resolved.
pub mod Policies
pub mod Ops
pub mod Modes
pub mod Apply
pub mod Execute
use aerospike_client_python.Base.{
  ℤ, pos, negsuc, String, str_eq, Bool, true, false, ◌&&◌, not, is_none, Option, none, some, List,
  if◌then◌else◌,
}
use aerospike_client_python.Base.Dict.{get}
use aerospike_client_python.Config.Equality.{same_int}
use aerospike_client_python.Batch.Native.{Native}
use aerospike_client_python.Policy.Settings.{Enums, OpKind, OpShape, Mode, Settings}

-- `RecordExistsAction`, and the verbs that enforce one.
pub data RecordExistsAction : Type 0 where
  create_only update_only replace replace_only : RecordExistsAction

abbrev pub op_type_to_rea : String → Option RecordExistsAction
op_type_to_rea op_type =
    if str_eq op_type "insert"
    then some create_only
    else if str_eq op_type "update"
    then some update_only
    else if str_eq op_type "replace"
    then some replace
    else if str_eq op_type "replace_if_exists"
    then some replace_only
    else none

-- `spec.op_type or "upsert"`
abbrev pub verb_of : Option String → String
verb_of none = "upsert"
verb_of (some op_type) = if str_eq op_type "" then "upsert" else op_type

pub data Expiration : Type 0 where
  never_expire dont_update namespace_default : Expiration
  seconds : ℤ → Expiration

abbrev pub to_expiration : ℤ → Expiration
to_expiration ttl =
    if same_int ttl (negsuc 0)
    then never_expire
    else if same_int ttl (negsuc 1)
    then dont_update
    else if same_int ttl (pos 0)
    then namespace_default
    else seconds ttl

module _ (N : Native) (E : Enums) where
  -- The behavior's settings, and the modes of the builder's namespace and of the other ones.
  pub record Context : Type 0 where
    pub settings : OpKind → OpShape → Mode → Settings E
    pub namespace : String
    pub namespace_mode : Mode
    pub batch_namespace_modes : Option (List (String × Mode))
    -- `level == CommitLevel.COMMIT_ALL`
    pub is_commit_all : E.CommitLevel → Bool

  abbrev pub found_or : Mode → Option Mode → Mode
  found_or default none = default
  found_or default (some mode) = mode

  unfoldable pub mode_for_namespace : Context → String → Mode
  mode_for_namespace c ns = elim c.batch_namespace_modes [
    | none ↦ c.namespace_mode
    | some modes ↦
        if str_eq ns c.namespace
        then c.namespace_mode
        else found_or c.namespace_mode (get str_eq ns modes)
  ]

  -- `mode if mode is not None else self._resolved_namespace_mode()`
  abbrev pub row_mode : Context → Option Mode → Mode
  row_mode c mode = found_or c.namespace_mode mode
