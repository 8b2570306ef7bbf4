-- ===== src/Dispatch/Modes/Extra.antt =====
-- The namespaces that a batch asks for in aerospike_sdk/aio/operations/query.py, and the answers.
use aerospike_client_python.Base.{
  String, str_eq, eq_iff, Bool, true, false, any, Bool-cases, or_intro, or_elim, some, List, [],
  ◌∷◌, All, All-map, ◌≡◌, refl, sym, ap, ◌∙◌, ◌⊎◌, inl, inr,
}
use aerospike_client_python.Base.Dict.{get, put, get-put_same, get-put_other}
use aerospike_client_python.Batch.Native.{Native}
use aerospike_client_python.Batch.Spec.{OperationSpec}
use aerospike_client_python.Policy.Settings.{Mode, sc as mode_sc}
use aerospike_client_python.Dispatch.Modes.{
  is_sc, says_sc, add, add_keys, collect_extra_batch_namespaces, resolve_all,
}

abbrev pub has : String → List String → Bool
has ns extra = any (str_eq ns) extra

same_name : (a : String) → str_eq a a ≡ true
same_name a = (eq_iff a a).1 refl

has-add : (ns : String) (extra : List String) → has ns (add ns extra) ≡ true
has-add ns [] = or_intro (str_eq ns ns) false (inl (same_name ns))
has-add ns (x ∷ extra) = elim (Bool-cases (str_eq ns x)) [
  | inl e ↦ rw e (or_intro (str_eq ns x) _ (inl e))
  | inr e ↦ rw e (or_intro (str_eq ns x) _ (inr (has-add ns extra)))
]

has-add_kept :
    (a ns : String) (extra : List String) → has a extra ≡ true → has a (add ns extra) ≡ true
has-add_kept a ns [] h = absurd (cc h)
has-add_kept a ns (x ∷ extra) h = elim (Bool-cases (str_eq ns x)) [
  | inl e ↦ rw e h
  | inr e ↦ rw e (elim (or_elim (str_eq a x) _ h) [
    | inl k ↦ or_intro (str_eq a x) _ (inl k)
    | inr k ↦ or_intro (str_eq a x) _ (inr (has-add_kept a ns extra k))
  ])
]

-- What a resolver answered for a name, and what a dictionary of its answers holds for it.
abbrev pub Answered :
    {Exception : Type 0} → (String → Exception ⊎ Mode) → String → List (String × Mode) → Type 0
Answered resolve ns modes =
    (mode : Mode) × (resolve ns ≡ inr mode) × (get str_eq ns modes ≡ some mode)

pub any-says_sc :
    (ns : String) (modes : List (String × Mode))
    → get str_eq ns modes ≡ some mode_sc
    → any says_sc modes ≡ true
any-says_sc ns [] h = absurd (cc h)
any-says_sc ns ((x, mode) ∷ modes) h = elim (Bool-cases (str_eq ns x)) [
  | inl e ↦ or_intro (is_sc mode) _ (inl (ap is_sc (mode_of mode (rw e at h))))
  | inr e ↦ or_intro (is_sc mode) _ (inr (any-says_sc ns modes (rw e at h)))
]
  where
    mode_of : (m : Mode) → some m ≡ some mode_sc → m ≡ mode_sc
    mode_of m k = cc k

module _ {Exception : Type 0} (resolve : String → Exception ⊎ Mode) where
  put-Answered :
      (ns x : String) (extra : List String) (mode : Mode) (modes : List (String × Mode))
      → resolve x ≡ inr mode
      → (has ns (x ∷ extra) ≡ true) ⊎ Answered resolve ns modes
      → (has ns extra ≡ true) ⊎ Answered resolve ns (put str_eq x mode modes)
  put-Answered ns x extra mode modes e h = elim (Bool-cases (str_eq ns x)) [
    | inl k ↦
        let same : ns ≡ x = (eq_iff ns x).0 k in
        inr (
          mode,
          ap resolve same ∙ e,
          ap (λ n. get str_eq n (put str_eq x mode modes)) same
              ∙ get-put_same str_eq eq_iff x mode modes,
        )
    | inr k ↦ elim h [
      | inl in_extra ↦ inl (rw k at in_extra)
      | inr (m, answered, held) ↦
          inr (m, answered, get-put_other str_eq eq_iff ns x mode modes k ∙ held)
    ]
  ]

pub answer_cases : {A B : Type 0} (o : A ⊎ B) → ((a : A) × (o ≡ inl a)) ⊎ ((b : B) × (o ≡ inr b))
answer_cases (inl a) = inl (a, refl)
answer_cases (inr b) = inr (b, refl)

module _ (N : Native) (Exception BasePolicies : Type 0) where
  pub resolve_all-Answered :
      (resolve : String → Exception ⊎ Mode) (ns : String) (extra : List String)
      (modes out : List (String × Mode))
      → resolve_all N Exception BasePolicies resolve extra modes ≡ inr out
      → (has ns extra ≡ true) ⊎ Answered resolve ns modes
      → Answered resolve ns out
  resolve_all-Answered resolve ns [] modes out e (inl h) = absurd (cc h)
  resolve_all-Answered resolve ns [] modes out e (inr (mode, answered, held)) =
      (mode, answered, ap (get str_eq ns) (sym (right e)) ∙ held)
    where
      right : ◌≡◌ {A = Exception ⊎ List (String × Mode)} (inr modes) (inr out) → modes ≡ out
      right k = cc k
  resolve_all-Answered resolve ns (x ∷ extra) modes out e h = elim (answer_cases (resolve x)) [
    | inl (exc, raised) ↦ absurd (cc (rw (raised, resolve_all) at e))
    | inr (mode, answered) ↦
        resolve_all-Answered resolve ns extra (put str_eq x mode modes) out
          (rw (answered, resolve_all) at e) (put-Answered resolve ns x extra mode modes answered h)
  ]

  -- The namespace is the builder's, or in the set.
  abbrev pub Covered : String → List String → N.Key → Type 0
  Covered namespace extra key =
      (str_eq (N.namespace key) namespace ≡ true) ⊎ (has (N.namespace key) extra ≡ true)

  add_keys_kept :
      (namespace a : String) (keys : List N.Key) (extra : List String)
      → has a extra ≡ true
      → has a (add_keys N Exception BasePolicies namespace keys extra) ≡ true
  add_keys_kept namespace a [] extra h = h
  add_keys_kept namespace a (key ∷ keys) extra h =
      add_keys_kept namespace a keys _ (elim (Bool-cases (str_eq (N.namespace key) namespace)) [
        | inl e ↦ rw e h
        | inr e ↦ rw e (has-add_kept a (N.namespace key) extra h)
      ])

  add_keys-Covered :
      (namespace : String) (keys : List N.Key) (extra : List String)
      → All (Covered namespace (add_keys N Exception BasePolicies namespace keys extra)) keys
  add_keys-Covered namespace [] extra = tt
  add_keys-Covered namespace (key ∷ keys) extra = (
    elim (Bool-cases (str_eq (N.namespace key) namespace)) [
      | inl e ↦ inl e
      | inr e ↦ inr (
          add_keys_kept namespace (N.namespace key) keys _ (rw e (has-add (N.namespace key) extra)))
    ],
    add_keys-Covered namespace keys _,
  )

  abbrev pub collected : String → List (OperationSpec N) → List String → List String
  collected = collect_extra_batch_namespaces N Exception BasePolicies

  collected_kept :
      (namespace a : String) (specs : List (OperationSpec N)) (extra : List String)
      → has a extra ≡ true
      → has a (collected namespace specs extra) ≡ true
  unfolding collect_extra_batch_namespaces
  collected_kept namespace a [] extra h = h
  collected_kept namespace a (spec ∷ specs) extra h =
      collected_kept namespace a specs _ (add_keys_kept namespace a spec.keys extra h)

  pub collected-Covered :
      (namespace : String) (specs : List (OperationSpec N)) (extra : List String)
      → All (λ spec. All (Covered namespace (collected namespace specs extra)) spec.keys) specs
  unfolding collect_extra_batch_namespaces
  collected-Covered namespace [] extra = tt
  collected-Covered namespace (spec ∷ specs) extra = (
    All-map
        (λ key covered. elim covered [
          | inl own ↦ inl own
          | inr held ↦ inr (collected_kept namespace (N.namespace key) specs _ held)
        ])
        spec.keys (add_keys-Covered namespace spec.keys extra),
    collected-Covered namespace specs _,
  )
