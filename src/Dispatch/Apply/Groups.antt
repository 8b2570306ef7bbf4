-- ===== src/Dispatch/Apply/Groups.antt =====
-- The groups that the keys of a batch are put in.
use aerospike_client_python.Base.{
  ℕ, zero, suc, ◌+◌, ◌==◌, ==_iff, Bool, true, any, any-append, or_intro, or_elim, Bool-cases, some,
  List, get_elem?, [], ◌∷◌, ◌++◌, All, All-append, ◌≡◌, refl, sym, subst, ◌∙◌, inl, inr, arith,
}
use aerospike_client_python.Batch.Native.{Native}
use aerospike_client_python.Policy.Settings.{Mode}
use aerospike_client_python.Policy.Behavior.{mode_eq}
use aerospike_client_python.Dispatch.Policies.Laws.{mode_eq-IsSound}
use aerospike_client_python.Dispatch.Apply.{Groups, append_to, group_from}

at_start : (j : ℕ) → (j + 0) ≡ j
at_start j = omega arith

none_before : (i : ℕ) → (0 + i) ≡ i
none_before i = omega arith

shifted : (j i : ℕ) → (j + suc i) ≡ (suc j + i)
shifted j i = omega arith

module _ (N : Native) (mode_of : N.Key → Mode) (all_keys : List N.Key) where
  -- A pair is an index with its key, in the group of the key's mode.
  abbrev pub Placed : Mode → ℕ × N.Key → Type 0
  Placed mode pair = (get_elem? all_keys pair.0 ≡ some pair.1) × (mode_of pair.1 ≡ mode)

  abbrev pub Good : Groups N → Type 0
  Good groups = All (λ group. All (Placed group.0) group.1) groups

  abbrev pub in_pairs : ℕ → List (ℕ × N.Key) → Bool
  in_pairs i pairs = any (λ pair. i == pair.0) pairs

  abbrev pub in_groups : ℕ → Groups N → Bool
  in_groups i groups = any (λ group. in_pairs i group.1) groups

  append_to-Good :
      (i : ℕ) (key : N.Key) (groups : Groups N)
      → get_elem? all_keys i ≡ some key
      → Good groups
      → Good (append_to N (mode_of key) (i, key) groups)
  append_to-Good i key [] e h = (((e, refl), tt), tt)
  append_to-Good i key ((other, pairs) ∷ groups) e h =
      elim (Bool-cases (mode_eq (mode_of key) other)) [
        | inl m ↦ rw m (
          All-append (Placed other) pairs ((i, key) ∷ []) h.0
              ((e, mode_eq-IsSound (mode_of key) other m), tt),
          h.1,
        )
        | inr m ↦ rw m (h.0, append_to-Good i key groups e h.1)
      ]

  append_to_enters :
      (i : ℕ) (key : N.Key) (mode : Mode) (groups : Groups N)
      → in_groups i (append_to N mode (i, key) groups) ≡ true
  append_to_enters i key mode [] = rw ((==_iff i i).1 refl) refl
  append_to_enters i key mode ((other, pairs) ∷ groups) = elim (Bool-cases (mode_eq mode other)) [
    | inl m ↦ rw m (
        or_intro (in_pairs i (pairs ++ (i, key) ∷ [])) (in_groups i groups) (
          inl (
            any-append (λ pair. i == pair.0) pairs ((i, key) ∷ [])
            ∙ or_intro (in_pairs i pairs) (in_pairs i ((i, key) ∷ []))
                (inr (rw ((==_iff i i).1 refl) refl)))))
    | inr m ↦ rw m (
        or_intro (in_pairs i pairs) (in_groups i (append_to N mode (i, key) groups))
          (inr (append_to_enters i key mode groups)))
  ]

  append_to_keeps :
      (a i : ℕ) (key : N.Key) (mode : Mode) (groups : Groups N)
      → in_groups a groups ≡ true
      → in_groups a (append_to N mode (i, key) groups) ≡ true
  append_to_keeps a i key mode [] h = absurd (cc h)
  append_to_keeps a i key mode ((other, pairs) ∷ groups) h =
      elim (or_elim (in_pairs a pairs) (in_groups a groups) h) [
        | inl here ↦ elim (Bool-cases (mode_eq mode other)) [
          | inl m ↦ rw m (
              or_intro (in_pairs a (pairs ++ (i, key) ∷ [])) (in_groups a groups) (
                inl (
                  any-append (λ pair. a == pair.0) pairs ((i, key) ∷ [])
                  ∙ or_intro (in_pairs a pairs) (in_pairs a ((i, key) ∷ [])) (inl here))))
          | inr m ↦ rw m (or_intro (in_pairs a pairs) _ (inl here))
        ]
        | inr there ↦ elim (Bool-cases (mode_eq mode other)) [
          | inl m ↦ rw m (or_intro _ (in_groups a groups) (inr there))
          | inr m ↦
              rw m (or_intro (in_pairs a pairs) _ (inr (append_to_keeps a i key mode groups there)))
        ]
      ]

  group_from_keeps :
      (a j : ℕ) (keys : List N.Key) (groups : Groups N)
      → in_groups a groups ≡ true
      → in_groups a (group_from N mode_of j keys groups) ≡ true
  group_from_keeps a j [] groups h = h
  group_from_keeps a j (key ∷ keys) groups h =
      group_from_keeps a (suc j) keys _ (append_to_keeps a j key (mode_of key) groups h)

  group_from-Good :
      (j : ℕ) (keys : List N.Key) (groups : Groups N)
      → ((i : ℕ) (key : N.Key)
          → get_elem? keys i ≡ some key
          → get_elem? all_keys (j + i) ≡ some key)
      → Good groups
      → Good (group_from N mode_of j keys groups)
  group_from-Good j [] groups sub h = h
  group_from-Good j (key ∷ keys) groups sub h =
      group_from-Good (suc j) keys _
        (λ i k e. subst (λ n. get_elem? all_keys n ≡ some k) (shifted j i) (sub (suc i) k e))
        (append_to-Good j key groups
          (subst (λ n. get_elem? all_keys n ≡ some key) (at_start j) (sub 0 key refl)) h)

  group_from_enters :
      (j i : ℕ) (keys : List N.Key) (key : N.Key) (groups : Groups N)
      → get_elem? keys i ≡ some key
      → in_groups (j + i) (group_from N mode_of j keys groups) ≡ true
  group_from_enters j i [] key groups e = absurd (cc e)
  group_from_enters j zero (k ∷ keys) key groups e = group_from_keeps (j + 0) (suc j) keys _ (
      subst (λ n. in_groups n (append_to N (mode_of k) (j, k) groups) ≡ true) (sym (at_start j))
        (append_to_enters j k (mode_of k) groups))
  group_from_enters j (suc i) (k ∷ keys) key groups e =
      subst
        (λ n.
          in_groups n (group_from N mode_of (suc j) keys (append_to N (mode_of k) (j, k) groups))
          ≡ true)
        (sym (shifted j i)) (group_from_enters (suc j) i keys key _ e)

  pub all_groups-Good : Good (group_from N mode_of 0 all_keys [])
  all_groups-Good =
      group_from-Good 0 all_keys []
        (λ i key e. subst (λ n. get_elem? all_keys n ≡ some key) (sym (none_before i)) e) tt

  pub all_groups_enter :
      (i : ℕ) (key : N.Key)
      → get_elem? all_keys i ≡ some key
      → in_groups i (group_from N mode_of 0 all_keys []) ≡ true
  all_groups_enter i key e =
      subst (λ n. in_groups n (group_from N mode_of 0 all_keys []) ≡ true) (none_before i)
        (group_from_enters 0 i all_keys key [] e)
