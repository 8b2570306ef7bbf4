-- ===== src/Dispatch/Ops/Laws.antt =====
-- The rows of the batch that aerospike_sdk/aio/operations/query.py sends for a run of segments.
use aerospike_client_python.Base.{
  String, false, is_some, Bool-cases, Option, none, some, Option-cases, List, [], ◌∷◌, ◌++◌, map,
  append_assoc, append-nil, ◌≡◌, refl, sym, ap, ◌∙◌, inl, inr,
}
use aerospike_client_python.Batch.Native.{Native}
use aerospike_client_python.Batch.Spec.{OperationSpec, operations}
use aerospike_client_python.Policy.Settings.{Enums, Mode, ap as mode_ap, sc as mode_sc}
use aerospike_client_python.Dispatch.{Context, mode_for_namespace}
use aerospike_client_python.Dispatch.Policies.{
  BatchWritePolicy, Caches, make_batch_write_policy_mixed, write_policy_with,
}
use aerospike_client_python.Dispatch.Policies.Laws.{
  fresh_policy, IsCoherent, make_batch_write_policy_mixed-IsCoherent,
}
use aerospike_client_python.Dispatch.Ops.{
  write_op, key_of, choose, Verb, reads, deletes, touches, existence, applies, writes, verb,
  row_policies, read_row, write_rows, rows_of, spec_to_batch_ops, Call, no_call, repeat, specs_call,
}

map-same :
    {A B : Type 0} (f : A → B) (g : B → A) (xs : List A)
    → ((x : A) → g (f x) ≡ x)
    → map g (map f xs) ≡ xs
map-same f g [] h = refl
map-same f g (x ∷ xs) h = λ i. h x i ∷ map-same f g xs h i

map-const :
    {A B C : Type 0} (f : A → B) (c : C) (xs : List A) → map (λ b. c) (map f xs) ≡ map (λ a. c) xs
map-const f c [] = refl
map-const f c (x ∷ xs) = ap (◌∷◌ c) (map-const f c xs)

pub map-append :
    {A B : Type 0} (f : A → B) (xs ys : List A) → map f (xs ++ ys) ≡ map f xs ++ map f ys
map-append f [] ys = refl
map-append f (x ∷ xs) ys = ap (◌∷◌ (f x)) (map-append f xs ys)

map-pointwise :
    {A B : Type 0} (f g : A → B) (xs : List A) → ((x : A) → f x ≡ g x) → map f xs ≡ map g xs
map-pointwise f g [] h = refl
map-pointwise f g (x ∷ xs) h = λ i. h x i ∷ map-pointwise f g xs h i

module _ (N : Native) (E : Enums) (touch : N.Operation) (c : Context N E) where
  read_row-key :
      (spec : OperationSpec N) (ops : List N.Operation) (key : N.Key)
      → key_of N E (read_row N E touch c spec ops key) ≡ key
  read_row-key spec [] key = refl
  read_row-key spec (op ∷ ops) key = refl

  -- One row for each key, in order, and its verb as often.
  rows_of-keys :
      (v : Verb) (spec : OperationSpec N) (t : Caches N E)
      → (map (key_of N E) (rows_of N E touch c v spec t).0 ≡ spec.keys)
        × (repeat N E touch c spec.op_type (rows_of N E touch c v spec t).0
            ≡ map (λ key. spec.op_type) spec.keys)
  unfolding rows_of
  rows_of-keys reads spec t = (
    map-same (read_row N E touch c spec (operations N spec).0) (key_of N E) spec.keys
        (read_row-key spec (operations N spec).0),
    map-const _ spec.op_type spec.keys,
  )
  rows_of-keys deletes spec t =
      (map-same _ (key_of N E) spec.keys (λ key. refl), map-const _ spec.op_type spec.keys)
  rows_of-keys touches spec t =
      (map-same _ (key_of N E) spec.keys (λ key. refl), map-const _ spec.op_type spec.keys)
  rows_of-keys existence spec t =
      (map-same _ (key_of N E) spec.keys (λ key. refl), map-const _ spec.op_type spec.keys)
  rows_of-keys applies spec t =
      (map-same _ (key_of N E) spec.keys (λ key. refl), map-const _ spec.op_type spec.keys)
  rows_of-keys writes spec t =
      (map-same _ (key_of N E) spec.keys (λ key. refl), map-const _ spec.op_type spec.keys)

  abbrev pub keys_of : List (OperationSpec N) → List N.Key
  keys_of [] = []
  keys_of (spec ∷ specs) = spec.keys ++ keys_of specs

  -- The verb of each key's segment.
  abbrev pub verbs_of : List (OperationSpec N) → List (Option String)
  verbs_of [] = []
  verbs_of (spec ∷ specs) = map (λ key. spec.op_type) spec.keys ++ verbs_of specs

  specs_call-keys_from :
      (specs : List (OperationSpec N)) (call : Call N E touch c) (t : Caches N E)
      → map (key_of N E) call.all_ops ≡ call.all_keys
      → let r = (specs_call N E touch c specs call t).0 in
        (map (key_of N E) r.all_ops ≡ r.all_keys)
        × (r.all_keys ≡ call.all_keys ++ keys_of specs)
        × (r.row_op_types ≡ call.row_op_types ++ verbs_of specs)
  unfolding specs_call spec_to_batch_ops
  specs_call-keys_from [] call t h =
      (h, sym (append-nil call.all_keys), sym (append-nil call.row_op_types))
  specs_call-keys_from (spec ∷ specs) call t h =
      let ops = spec_to_batch_ops N E touch c spec t in
      let rows = rows_of-keys (verb spec.op_type) spec t in
      let next : Call N E touch c = record {
        all_ops = call.all_ops ++ ops.0;
        all_keys = call.all_keys ++ spec.keys;
        row_op_types = call.row_op_types ++ repeat N E touch c spec.op_type ops.0;
      } in
      let rest =
        specs_call-keys_from specs next ops.1
          (map-append (key_of N E) call.all_ops ops.0 ∙ (λ i. h i ++ rows.0 i)) in
      (
        rest.0,
        rest.1 ∙ append_assoc call.all_keys spec.keys (keys_of specs),
        rest.2
            ∙ append_assoc call.row_op_types (repeat N E touch c spec.op_type ops.0)
                (verbs_of specs)
            ∙ ap (λ l. call.row_op_types ++ (l ++ verbs_of specs)) (rows.1),
      )

  -- The one call for a run of segments has a row for every key of every segment, in chain order, and
  -- lists as many keys, and as many verbs: that of the segment of each row.
  pub specs_call-keys :
      (specs : List (OperationSpec N)) (t : Caches N E)
      → let r = (specs_call N E touch c specs (no_call N E touch c) t).0 in
        (map (key_of N E) r.all_ops ≡ keys_of specs)
        × (r.all_keys ≡ keys_of specs)
        × (r.row_op_types ≡ verbs_of specs)
  specs_call-keys specs t =
      let r = specs_call-keys_from specs (no_call N E touch c) t refl in (r.0 ∙ r.1, r.1, r.2)

  -- The consistency mode of a key's own namespace.
  abbrev pub own_mode : N.Key → Option Mode
  unfolding mode_for_namespace
  own_mode key = some (mode_for_namespace N E c (N.namespace key))

  abbrev pub own_policy : OperationSpec N → N.Key → Option (BatchWritePolicy N E)
  unfolding own_mode
  own_policy spec key = fresh_policy N E c spec (own_mode key)

  chosen :
      (spec : OperationSpec N) (p q : Option (BatchWritePolicy N E)) (mode : Mode)
      → p ≡ fresh_policy N E c spec (some mode_ap)
      → q ≡ fresh_policy N E c spec (some mode_sc)
      → choose N E p q mode ≡ fresh_policy N E c spec (some mode)
  chosen spec p q mode_ap h k = h
  chosen spec p q mode_sc h k = k

  -- Where only one namespace is in the batch, its mode is the builder's.
  one_mode :
      (key : N.Key)
      → is_some c.batch_namespace_modes ≡ false
      → mode_for_namespace N E c (N.namespace key) ≡ c.namespace_mode
  unfolding mode_for_namespace
  one_mode key h = elim (Option-cases c.batch_namespace_modes) [
    | inl e ↦ rw e refl
    | inr e ↦ absurd (cc (ap is_some e.1, h))
  ]

  row_policies-own :
      (spec : OperationSpec N) (t : Caches N E)
      → IsCoherent N E c t
      → let p = row_policies N E touch c (make_batch_write_policy_mixed N E c spec) t in
        ((key : N.Key) → p.0 key ≡ own_policy spec key) × IsCoherent N E c p.1
  unfolding row_policies own_policy write_policy_with
  row_policies-own spec t h = elim (Bool-cases (is_some c.batch_namespace_modes)) [
    | inl e ↦
        let for_ap = make_batch_write_policy_mixed-IsCoherent N E c spec (some mode_ap) t h in
        let u = (make_batch_write_policy_mixed N E c spec (some mode_ap) t).1 in
        let for_sc =
          make_batch_write_policy_mixed-IsCoherent N E c spec (some mode_sc) u for_ap.1 in
        rw e (
          λ key. chosen spec _ _ (mode_for_namespace N E c (N.namespace key)) for_ap.0 for_sc.0,
          for_sc.1,
        )
    | inr e ↦
        let one = make_batch_write_policy_mixed-IsCoherent N E c spec none t h in
        rw e
          (λ key. one.0 ∙ ap (λ m. fresh_policy N E c spec (some m)) (sym (one_mode key e)), one.1)
  ]

  -- A row of a write segment has the policy of the mode of its own key's namespace, whatever the
  -- builder's caches have kept before and however many namespaces the batch spans.
  pub write_rows-own_policy :
      (ops : List N.Operation) (puts : Option (List (String × N.Value))) (spec : OperationSpec N)
      (t : Caches N E)
      → IsCoherent N E c t
      → let r = write_rows N E touch c ops puts spec t in
        (r.0 ≡ map (λ key. write_op key ops (own_policy spec key) puts) spec.keys)
        × IsCoherent N E c r.1
  unfolding write_rows
  write_rows-own_policy ops puts spec t h =
      let p = row_policies-own spec t h in
      (
        map-pointwise _ _ spec.keys (λ key. ap (λ policy. write_op key ops policy puts) (p.0 key)),
        p.1,
      )
