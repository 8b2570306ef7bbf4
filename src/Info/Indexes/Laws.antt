-- ===== src/Info/Indexes/Laws.antt =====
-- Which of the indexes that the nodes report aerospike_sdk/index_list.py lists.
use aerospike_client_python.Base.{
  ℕ, Bool, true, false, ◌&&◌, ◌||◌, not, keep, Bool-cases, Option, is_some, List, [], ◌∷◌, ◌++◌,
  map, append_assoc, append-nil, ◌≡◌, refl, sym, ap, ◌∙◌, inl, inr,
}
use aerospike_client_python.Base.Dict.{get}
use aerospike_client_python.Info.{Text, same_text, same_text-IsEquality, is_empty, split, strip}
use aerospike_client_python.Info.Bodies.{Dict, Responses}
use aerospike_client_python.Info.Indexes.{
  text_indexname, Index, field, index_of, is_skipped, IndexMap, add_record, add_entries, add_values,
  add_nodes, parse_index_list, entry_records, value_records, all_records,
}

keep-keep :
    {A : Type 0} (p q : A → Bool) (xs : List A) → keep p (keep q xs) ≡ keep (λ x. q x && p x) xs
keep-keep p q [] = refl
keep-keep p q (x ∷ xs) = elim (Bool-cases (q x)) [
  | inl h ↦ rw (h, keep-keep p q xs) refl
  | inr h ↦ rw (h, keep-keep p q xs) refl
]

keep-pointwise :
    {A : Type 0} (p q : A → Bool) (xs : List A) → ((x : A) → p x ≡ q x) → keep p xs ≡ keep q xs
keep-pointwise p q [] h = refl
keep-pointwise p q (x ∷ xs) h = rw (h x, keep-pointwise p q xs h) refl

-- The name of a record's index, and whether it is another one than that of `d`.
abbrev name_of : Dict → Text
name_of d = field text_indexname d

abbrev pub other_name : Dict → Dict → Bool
other_name d e = not (same_text (name_of e) (name_of d))

-- Of the records of each name, the first.
abbrev pub firsts : List Dict → List Dict
firsts [] = []
firsts (d ∷ ds) = d ∷ keep (other_name d) (firsts ds)

abbrev absent : IndexMap → Dict → Bool
absent m d = not (is_some (get same_text (name_of d) m))

get-absent :
    (k j : Text) (v : Index) (m : IndexMap)
    → is_some (get same_text k (m ++ (j, v) ∷ [])) ≡ (is_some (get same_text k m) || same_text k j)
get-absent k j v [] = elim (Bool-cases (same_text k j)) [ inl h ↦ rw h refl | inr h ↦ rw h refl ]
get-absent k j v ((i, w) ∷ m) = elim (Bool-cases (same_text k i)) [
  | inl h ↦ rw h refl
  | inr h ↦ rw h (get-absent k j v m)
]

-- A record of a name that is in the map is not absent from it.
absent_same :
    (m : IndexMap) (d e : Dict) → absent m d ≡ false → (other_name d e && absent m e) ≡ absent m e
absent_same m d e h = elim (Bool-cases (same_text (name_of e) (name_of d))) [
  | inr k ↦ rw k refl
  | inl k ↦
      let same = (same_text-IsEquality (name_of e) (name_of d)).0 k in
      rw k (sym (ap (λ n. not (is_some (get same_text n m))) same ∙ h))
]

absent_more :
    (m : IndexMap) (d e : Dict) (v : Index)
    → absent (m ++ (name_of d, v) ∷ []) e ≡ (other_name d e && absent m e)
absent_more m d e v =
    ap not (get-absent (name_of e) (name_of d) v m)
    ∙ neither (is_some (get same_text (name_of e) m)) (same_text (name_of e) (name_of d))
  where
    neither : (a b : Bool) → not (a || b) ≡ (not b && not a)
    neither true true = refl
    neither true false = refl
    neither false true = refl
    neither false false = refl

entries_of : List Dict → IndexMap
entries_of [] = []
entries_of (d ∷ ds) = (name_of d, index_of d) ∷ entries_of ds

module _ (is_space : ℕ → Bool) (namespace : Option Text) where
  abbrev add_all : List Dict → IndexMap → IndexMap
  unfolding add_record
  add_all [] m = m
  add_all (d ∷ ds) m = add_all ds (add_record is_space namespace d m)

  -- The records that are asked for.
  abbrev pub wanted : List Dict → List Dict
  unfolding is_skipped
  wanted ds = keep (λ d. not (is_skipped namespace d)) ds

  add_all-append :
      (ds es : List Dict) (m : IndexMap) → add_all (ds ++ es) m ≡ add_all es (add_all ds m)
  unfolding add_all
  add_all-append [] es m = refl
  add_all-append (d ∷ ds) es m = add_all-append ds es (add_record is_space namespace d m)

  -- A map with the records that it did not have a name for.
  abbrev extended : List Dict → IndexMap → IndexMap
  unfolding entries_of
  extended ds m = m ++ entries_of (keep (absent m) ds)

  add_all-firsts : (ds : List Dict) (m : IndexMap) → add_all ds m ≡ extended (firsts (wanted ds)) m
  unfolding add_all wanted extended add_record is_skipped
  add_all-firsts [] m = sym (append-nil m)
  add_all-firsts (d ∷ ds) m = elim (Bool-cases (is_skipped namespace d)) [
    | inl h ↦ rw h (add_all-firsts ds m)
    | inr h ↦
        let F = firsts (wanted ds) in
        elim (Bool-cases (is_some (get same_text (name_of d) m))) [
          | inl k ↦
              rw (h, k)
                (add_all-firsts ds m
                  ∙ ap (λ l. m ++ entries_of l)
                      (sym (
                        keep-keep (absent m) (other_name d) F
                        ∙ keep-pointwise _ _ F (λ e. absent_same m d e (ap not k)))))
          | inr k ↦
              let m' = m ++ (name_of d, index_of d) ∷ [] in
              rw (h, k)
                (add_all-firsts ds m'
                  ∙ append_assoc m ((name_of d, index_of d) ∷ []) (entries_of (keep (absent m') F))
                  ∙ ap (λ l. m ++ (name_of d, index_of d) ∷ entries_of l)
                      (keep-pointwise _ _ F (λ e. absent_more m d e (index_of d))
                        ∙ sym (keep-keep (absent m) (other_name d) F)))
        ]
  ]

  add_entries-add_all :
      (entries : List Text) (m : IndexMap)
      → add_entries is_space namespace entries m
        ≡ add_all (entry_records is_space namespace entries) m
  unfolding add_entries add_all
  add_entries-add_all [] m = refl
  add_entries-add_all (entry ∷ entries) m = elim (Bool-cases (is_empty (strip is_space entry))) [
    | inl h ↦ rw h (add_entries-add_all entries m)
    | inr h ↦ rw h (add_entries-add_all entries _)
  ]

  add_values-add_all :
      (values : Dict) (m : IndexMap)
      → add_values is_space namespace values m ≡ add_all (value_records is_space namespace values) m
  unfolding add_values add_all
  add_values-add_all [] m = refl
  add_values-add_all ((k, v) ∷ values) m = elim (Bool-cases (is_empty v)) [
    | inl h ↦ rw h (add_values-add_all values m)
    | inr h ↦
        let pieces = split b';' v in
        rw h (
          add_values-add_all values (add_entries is_space namespace pieces m)
          ∙ ap (add_all (value_records is_space namespace values)) (add_entries-add_all pieces m)
          ∙ sym (
              add_all-append (entry_records is_space namespace pieces)
                (value_records is_space namespace values) m))
  ]

  add_nodes-add_all :
      (responses : Responses) (m : IndexMap)
      → add_nodes is_space namespace responses m
        ≡ add_all (all_records is_space namespace responses) m
  unfolding add_nodes add_all
  add_nodes-add_all [] m = refl
  add_nodes-add_all ((node, values) ∷ responses) m =
      add_nodes-add_all responses (add_values is_space namespace values m)
      ∙ ap (add_all (all_records is_space namespace responses)) (add_values-add_all values m)
      ∙ sym (
          add_all-append (value_records is_space namespace values)
            (all_records is_space namespace responses) m)

  keep-absent : (ds : List Dict) → keep (absent []) ds ≡ ds
  keep-absent [] = refl
  keep-absent (d ∷ ds) = ap (◌∷◌ d) (keep-absent ds)

  map-entries_of : (ds : List Dict) → map (λ e. e.1) (entries_of ds) ≡ map index_of ds
  unfolding entries_of
  map-entries_of [] = refl
  map-entries_of (d ∷ ds) = ap (◌∷◌ (index_of d)) (map-entries_of ds)

  -- The list has one index for each name that a record of the responses gives to an index of the
  -- namespaces that are asked for: that of the first such record, in order. An index of the same
  -- name in another namespace is left out.
  pub parse_index_list-firsts :
      (responses : Responses)
      → parse_index_list is_space namespace responses
        ≡ map index_of (firsts (wanted (all_records is_space namespace responses)))
  unfolding parse_index_list extended entries_of
  parse_index_list-firsts responses =
      let ds = all_records is_space namespace responses in
      ap (map (λ e. e.1)) (add_nodes-add_all responses [] ∙ add_all-firsts ds [])
      ∙ ap (λ l. map (λ e. e.1) (entries_of l)) (keep-absent (firsts (wanted ds)))
      ∙ map-entries_of (firsts (wanted ds))
