-- ===== src/Base/Dict.antt =====
-- Dictionaries as association lists in the order of insertion, over a Boolean test of keys.
use mathlib.Core.Path.{◌≡◌, refl, sym, ap, ◌∙◌}
use mathlib.Core.Logic.{◌↔◌, inl, inr}
use mathlib.Core.Bool.{Bool, true, false}
use mathlib.Core.Option.{Option, none, some}
use mathlib.Core.List.{List, [], ◌∷◌}
use aerospike_client_python.Base.Tests.{if◌then◌else◌, Bool-cases}

module _ {K V : Type 0} (eq : K → K → Bool) where
  -- `d.get(k)`
  abbrev pub get : K → List (K × V) → Option V
  get k [] = none
  get k ((j, v) ∷ d) = if eq k j then some v else get k d

  -- `d[k] = v`, which keeps the place of a key that is there.
  abbrev pub put : K → V → List (K × V) → List (K × V)
  put k v [] = (k, v) ∷ []
  put k v ((j, w) ∷ d) = let rest = put k v d in if eq k j then (k, v) ∷ d else (j, w) ∷ rest

-- A test of keys that is equality.
abbrev pub IsEquality : {K : Type 0} → (K → K → Bool) → Type 0
IsEquality {K} eq = (a b : K) → (eq a b ≡ true) ↔ (a ≡ b)

module _ {K : Type 0} (eq : K → K → Bool) (law : IsEquality eq) where
  pub eq_self : (k : K) → eq k k ≡ true
  eq_self k = (law k k).1 refl

module _ {K V : Type 0} (eq : K → K → Bool) (law : IsEquality eq) where
  pub get-put :
      (k j : K) (v : V) (d : List (K × V))
      → get eq k (put eq j v d) ≡ (if eq k j then some v else get eq k d)
  get-put k j v [] = refl
  get-put k j v ((i, w) ∷ d) = elim (Bool-cases (eq j i)) [
    | inl p ↦
        let same : eq k i ≡ eq k j = ap (eq k) (sym ((law j i).0 p)) in
        elim (Bool-cases (eq k j)) [ inl q ↦ rw (p, q) refl | inr q ↦ rw (p, q, same ∙ q) refl ]
    | inr p ↦ elim (Bool-cases (eq k i)) [
      | inl q ↦ elim (Bool-cases (eq k j)) [
        | inl r ↦
            let e : eq j i ≡ true = (law j i).1 (sym ((law k j).0 r) ∙ (law k i).0 q) in
            absurd (cc (e, p))
        | inr r ↦ rw (p, q, r) refl
      ]
      | inr q ↦ rw (p, q) (get-put k j v d)
    ]
  ]

  pub get-put_same : (k : K) (v : V) (d : List (K × V)) → get eq k (put eq k v d) ≡ some v
  get-put_same k v d = get-put k k v d ∙ rw (eq_self eq law k) refl

  pub get-put_other :
      (k j : K) (v : V) (d : List (K × V)) → eq k j ≡ false → get eq k (put eq j v d) ≡ get eq k d
  get-put_other k j v d p = get-put k j v d ∙ rw p refl
