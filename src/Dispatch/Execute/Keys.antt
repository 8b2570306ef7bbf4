-- ===== src/Dispatch/Execute/Keys.antt =====
-- The keys of a chain in aerospike_sdk/aio/operations/query.py, and of the rows of a failed batch.
use aerospike_client_python.Base.{
  ℕ, suc, ◌+◌, String, Bool, true, all, length, length-append, is_some, Bool-cases, Option,
  Option-cases, List, [], ◌∷◌, ◌++◌, map, append_assoc, ◌≡◌, refl, sym, ap, ap₂, ◌∙◌, ◌⊎◌, inl, inr,
}
use aerospike_client_python.Results.{Core, Error, RecordResult, returned}
use aerospike_client_python.Results.Rows.{
  BatchRecord, batch_failure_records_to_results, failure_rows, failure_row,
}
use aerospike_client_python.Results.Filter.{error_rows, batch_error_rows}
use aerospike_client_python.Batch.Native.{Native}
use aerospike_client_python.Batch.Spec.{OperationSpec}
use aerospike_client_python.Policy.Settings.{Enums}
use aerospike_client_python.Dispatch.{Context}
use aerospike_client_python.Dispatch.Ops.Laws.{keys_of, verbs_of}

pub all-append_parts :
    {A : Type 0} (p : A → Bool) (xs ys : List A)
    → all p (xs ++ ys) ≡ true
    → (all p xs ≡ true) × (all p ys ≡ true)
all-append_parts p [] ys h = (refl, h)
all-append_parts p (x ∷ xs) ys h = elim (Bool-cases (p x)) [
  | inl e ↦ let r = all-append_parts p xs ys (rw e at h) in rw e r
  | inr e ↦ absurd (cc (rw e at h))
]

all-append :
    {A : Type 0} (p : A → Bool) (xs ys : List A)
    → all p xs ≡ true
    → all p ys ≡ true
    → all p (xs ++ ys) ≡ true
all-append p [] ys h k = k
all-append p (x ∷ xs) ys h k = elim (Bool-cases (p x)) [
  | inl e ↦ rw e (all-append p xs ys (rw e at h) k)
  | inr e ↦ absurd (cc (rw e at h))
]

pub length-map : {A B : Type 0} (f : A → B) (xs : List A) → length (map f xs) ≡ length xs
length-map f [] = refl
length-map f (x ∷ xs) = ap suc (length-map f xs)

module _ (C : Core) where
  keys-error_rows :
      (e : Error C) (i : ℕ) (keys : List C.Key) → map (λ r. r.key) (error_rows C e i keys) ≡ keys
  keys-error_rows e i [] = refl
  keys-error_rows e i (key ∷ keys) = ap (λ ks. key ∷ ks) (keys-error_rows e (suc i) keys)

  key-failure_row : (e : Error C) (i : ℕ) (br : BatchRecord C) → (failure_row C e i br).key ≡ br.key
  key-failure_row e i br = elim (Option-cases br.result_code) [
    | inl q ↦ elim (Option-cases br.payload) [ inl r ↦ rw (q, r) refl | inr r ↦ rw (q, r.1) refl ]
    | inr q ↦ rw (q.1) refl
  ]

  keys-failure_rows :
      (e : Error C) (i : ℕ) (brs : List (BatchRecord C))
      → map (λ r. r.key) (failure_rows C e i brs) ≡ map (λ br. br.key) brs
  keys-failure_rows e i [] = refl
  keys-failure_rows e i (br ∷ brs) =
      ap₂ (λ k ks. k ∷ ks) (key-failure_row e i br) (keys-failure_rows e (suc i) brs)

  -- The records that a failure carries are none, or one for each key in order.
  abbrev pub Carries : List C.Key → List (BatchRecord C) → Type 0
  Carries keys records = (records ≡ []) ⊎ (map (λ br. br.key) records ≡ keys)

  pub keys-batch_error_rows :
      (e : Error C) (records : List (BatchRecord C)) (keys : List C.Key)
      → Carries keys records
      → (rows : List (RecordResult C)) × (batch_error_rows C e records keys ≡ (returned rows, []))
        × (map (λ r. r.key) rows ≡ keys)
  unfolding batch_failure_records_to_results
  keys-batch_error_rows e [] keys h = (error_rows C e 0 keys, refl, keys-error_rows e 0 keys)
  keys-batch_error_rows e (br ∷ brs) keys (inl h) = absurd (cc h)
  keys-batch_error_rows e (br ∷ brs) keys (inr h) =
      (failure_rows C e 0 (br ∷ brs), refl, keys-failure_rows e 0 (br ∷ brs) ∙ h)

module _ (N : Native) (E : Enums) (touch : N.Operation) (c : Context N E) where
  abbrev pub is_verb : OperationSpec N → Bool
  is_verb spec = is_some spec.op_type

  abbrev pub keys_of_chain : List (OperationSpec N) → List N.Key
  keys_of_chain specs = keys_of N E touch c specs

  abbrev verbs_of_chain : List (OperationSpec N) → List (Option String)
  verbs_of_chain specs = verbs_of N E touch c specs

  all-map_const :
      (op_type : Option String) (keys : List N.Key)
      → is_some op_type ≡ true
      → all is_some (map (λ key. op_type) keys) ≡ true
  all-map_const op_type [] h = refl
  all-map_const op_type (key ∷ keys) h = rw h (all-map_const op_type keys h)

  pub all-verbs_of :
      (specs : List (OperationSpec N))
      → all is_verb specs ≡ true
      → all is_some (verbs_of_chain specs) ≡ true
  all-verbs_of [] h = refl
  all-verbs_of (spec ∷ specs) h =
      let parts = all-append_parts is_verb (spec ∷ []) specs h in
      all-append is_some (map (λ key. spec.op_type) spec.keys) (verbs_of_chain specs)
        (all-map_const spec.op_type spec.keys (elim (Bool-cases (is_some spec.op_type)) [
          | inl e ↦ e
          | inr e ↦ absurd (cc (rw e at h))
        ]))
        (all-verbs_of specs (parts.1))

  pub length-verbs_of :
      (specs : List (OperationSpec N))
      → length (verbs_of_chain specs) ≡ length (keys_of_chain specs)
  length-verbs_of [] = refl
  length-verbs_of (spec ∷ specs) =
      length-append (map (λ key. spec.op_type) spec.keys) (verbs_of_chain specs)
      ∙ (λ i. length-map (λ key. spec.op_type) spec.keys i + length-verbs_of specs i)
      ∙ sym (length-append spec.keys (keys_of_chain specs))

  pub keys_of-append :
      (specs more : List (OperationSpec N))
      → keys_of_chain (specs ++ more) ≡ keys_of_chain specs ++ keys_of_chain more
  keys_of-append [] more = refl
  keys_of-append (spec ∷ specs) more =
      ap (λ ks. spec.keys ++ ks) (keys_of-append specs more)
      ∙ sym (append_assoc spec.keys (keys_of_chain specs) (keys_of_chain more))
