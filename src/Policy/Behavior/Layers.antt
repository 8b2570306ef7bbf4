-- ===== src/Policy/Behavior/Layers.antt =====
-- Which patch decides a field of the settings that `Behavior._resolve` of
-- aerospike_sdk/policy/behavior.py computes.
use aerospike_client_python.Base.{
  ◌≡◌, refl, sym, ◌∙◌, ap, ap₂, Option, none, some, List, [], ◌∷◌, Option-cases, inl, inr,
}
use aerospike_client_python.Policy.Settings.{
  Enums, OpKind, read, write_retryable, write_non_retryable, OpShape, point, batch, query, Mode,
  ap as ap_mode, sc, Scope, all, reads, reads_point, reads_batch, reads_query, reads_ap, reads_sc,
  writes, writes_retryable, writes_non_retryable, writes_point, writes_batch, writes_query,
  writes_ap, writes_sc, Settings, merge, pick, resolution_order,
}
use aerospike_client_python.Policy.Settings.Fields.{
  Field, Value, read as read_field, read-merge, read-unset,
}
use aerospike_client_python.Policy.Behavior.{Patches, get, layer, resolve}

pick_assoc : {A : Type 0} (x y z : Option A) → pick (pick x y) z ≡ pick x (pick y z)
pick_assoc none y z = refl
pick_assoc (some x) y z = refl

module _ (E : Enums) (field : Field) where
  abbrev pub Word : Type 0
  Word = Option (Value E field)

  -- What a behavior's own patch for a scope says of the field.
  abbrev said : Option (Settings E) → Word
  said none = none
  said (some p) = read_field E field p

  -- The first word, from the left, of the scopes that an operation falls under.
  abbrev first_of : Word → Word → Word → Word → Word
  first_of a b c d = pick a (pick b (pick c d))

  abbrev of_shape : (Scope → Word) → Scope → Scope → Scope → OpShape → Word
  of_shape at p b q point = at p
  of_shape at p b q batch = at b
  of_shape at p b q query = at q

  abbrev of_mode : (Scope → Word) → Scope → Scope → Mode → Word
  of_mode at a s ap_mode = at a
  of_mode at a s sc = at s

  -- The most specific scope first: the shape, for a write whether it can be retried, the mode, the
  -- kind, and all operations.
  abbrev most_specific : (Scope → Word) → OpKind → OpShape → Mode → Word
  most_specific at read shape mode =
      first_of (of_shape at reads_point reads_batch reads_query shape)
        (of_mode at reads_ap reads_sc mode) (at reads) (at all)
  most_specific at write_retryable shape mode =
      pick (of_shape at writes_point writes_batch writes_query shape)
        (first_of (at writes_retryable) (of_mode at writes_ap writes_sc mode) (at writes) (at all))
  most_specific at write_non_retryable shape mode =
      pick (of_shape at writes_point writes_batch writes_query shape) (
        first_of (at writes_non_retryable) (of_mode at writes_ap writes_sc mode) (at writes)
          (at all))

  -- The word of the innermost behavior that says anything, at its most specific scope.
  abbrev pub decided : List (Patches E) → OpKind → OpShape → Mode → Word
  decided [] kind shape mode = none
  decided (patches ∷ parents) kind shape mode =
      pick (most_specific (λ s. said (get E patches s)) kind shape mode)
        (decided parents kind shape mode)

  -- The word of the last of a list of scopes that says anything.
  last_said : Patches E → List Scope → Word
  last_said patches [] = none
  last_said patches (s ∷ scopes) = pick (last_said patches scopes) (said (get E patches s))

  field-layer :
      (patches : Patches E) (base : Settings E) (scopes : List Scope)
      → read_field E field (layer E patches base scopes)
        ≡ pick (last_said patches scopes) (read_field E field base)
  unfolding layer last_said
  field-layer patches base [] = refl
  field-layer patches base (s ∷ scopes) = elim (Option-cases (get E patches s)) [
    | inl p ↦
        rw (p, layer)
          (field-layer patches base scopes
            ∙ sym (pick_assoc (last_said patches scopes) none (read_field E field base)))
    | inr (q, p) ↦
        rw (p, layer)
          (field-layer patches (merge E base q) scopes
            ∙ ap (pick (last_said patches scopes)) (read-merge E field base q)
            ∙ sym (
                pick_assoc (last_said patches scopes) (read_field E field q)
                  (read_field E field base)))
  ]

  last_of_four : (a b c d : Word) → pick (pick (pick (pick none d) c) b) a ≡ first_of d c b a
  last_of_four a b c none = pick_assoc c b a
  last_of_four a b c (some d) = refl

  last_of_five :
      (a b c d e : Word)
      → pick (pick (pick (pick (pick none e) d) c) b) a ≡ pick e (first_of d c b a)
  last_of_five a b c d none = last_of_four a b c d
  last_of_five a b c d (some e) = refl

  last_said-resolution_order :
      (patches : Patches E) (kind : OpKind) (shape : OpShape) (mode : Mode)
      → last_said patches (resolution_order kind shape mode)
        ≡ most_specific (λ s. said (get E patches s)) kind shape mode
  unfolding last_said resolution_order
  last_said-resolution_order patches kind shape mode = go kind shape mode
    where
      of_read :
          (m s : Scope)
          → last_said patches (all ∷ reads ∷ m ∷ s ∷ [])
            ≡ first_of
                (said (get E patches s))
                (said (get E patches m))
                (said (get E patches reads))
                (said (get E patches all))
      of_read m s =
          last_of_four (said (get E patches all)) (said (get E patches reads))
            (said (get E patches m)) (said (get E patches s))

      of_write :
          (m r s : Scope)
          → last_said patches (all ∷ writes ∷ m ∷ r ∷ s ∷ [])
            ≡ pick (said (get E patches s)) (
                first_of
                  (said (get E patches r))
                  (said (get E patches m))
                  (said (get E patches writes))
                  (said (get E patches all)))
      of_write m r s =
          last_of_five (said (get E patches all)) (said (get E patches writes))
            (said (get E patches m)) (said (get E patches r)) (said (get E patches s))

      go :
          (kind : OpKind) (shape : OpShape) (mode : Mode)
          → last_said patches (resolution_order kind shape mode)
            ≡ most_specific (λ s. said (get E patches s)) kind shape mode
      go read point ap_mode = of_read reads_ap reads_point
      go read point sc = of_read reads_sc reads_point
      go read batch ap_mode = of_read reads_ap reads_batch
      go read batch sc = of_read reads_sc reads_batch
      go read query ap_mode = of_read reads_ap reads_query
      go read query sc = of_read reads_sc reads_query
      go write_retryable point ap_mode = of_write writes_ap writes_retryable writes_point
      go write_retryable point sc = of_write writes_sc writes_retryable writes_point
      go write_retryable batch ap_mode = of_write writes_ap writes_retryable writes_batch
      go write_retryable batch sc = of_write writes_sc writes_retryable writes_batch
      go write_retryable query ap_mode = of_write writes_ap writes_retryable writes_query
      go write_retryable query sc = of_write writes_sc writes_retryable writes_query
      go write_non_retryable point ap_mode = of_write writes_ap writes_non_retryable writes_point
      go write_non_retryable point sc = of_write writes_sc writes_non_retryable writes_point
      go write_non_retryable batch ap_mode = of_write writes_ap writes_non_retryable writes_batch
      go write_non_retryable batch sc = of_write writes_sc writes_non_retryable writes_batch
      go write_non_retryable query ap_mode = of_write writes_ap writes_non_retryable writes_query
      go write_non_retryable query sc = of_write writes_sc writes_non_retryable writes_query

  -- Each of the twenty fields of resolved settings is the one that the innermost behavior sets, at
  -- the most specific scope that sets it there, or is unset when no patch sets it: for a read the
  -- scopes are its shape, its mode, reads and all, and for a write its shape, whether it can be
  -- retried, its mode, writes and all, the most specific first.
  pub field-resolve :
      (chain : List (Patches E)) (kind : OpKind) (shape : OpShape) (mode : Mode)
      → read_field E field (resolve E chain kind shape mode) ≡ decided chain kind shape mode
  unfolding resolve
  field-resolve [] kind shape mode = read-unset E field
  field-resolve (patches ∷ parents) kind shape mode =
      field-layer patches (resolve E parents kind shape mode) (resolution_order kind shape mode)
      ∙ ap₂ pick (last_said-resolution_order patches kind shape mode)
          (field-resolve parents kind shape mode)
