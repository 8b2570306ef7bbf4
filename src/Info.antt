-- ===== src/Info.antt =====
-- Texts as aerospike_sdk/info_shared.py and index_list.py take them apart: lists of code points.
pub mod Bodies
pub mod Indexes
pub mod RoundTrip
use aerospike_client_python.Base.{
  ℕ, ◌==◌, ==_iff, Bool, true, false, ◌&&◌, Option, none, some, List, [], ◌∷◌, ◌++◌, ◌≡◌, refl, sym,
  ap, ap₂, ◌∙◌, Bool-cases, inl, inr, if◌then◌else◌,
}
use aerospike_client_python.Base.Dict.{IsEquality}

abbrev pub Text : Type 0
Text = List ℕ

abbrev pub same_text : Text → Text → Bool
same_text [] [] = true
same_text [] (b ∷ ys) = false
same_text (a ∷ xs) [] = false
same_text (a ∷ xs) (b ∷ ys) = (a == b) && same_text xs ys

abbrev pub is_empty : {A : Type 0} → List A → Bool
is_empty [] = true
is_empty (x ∷ xs) = false

abbrev pub push : ℕ → List Text → List Text
push x [] = (x ∷ []) ∷ []
push x (piece ∷ pieces) = (x ∷ piece) ∷ pieces

-- `text.split(sep)`: always one piece or more.
abbrev pub split : ℕ → Text → List Text
split sep [] = [] ∷ []
split sep (x ∷ xs) = let rest = split sep xs in if x == sep then [] ∷ rest else push x rest

abbrev pub in_front : ℕ → Option (Text × Text) → Option (Text × Text)
in_front x none = none
in_front x (some (k, v)) = some (x ∷ k, v)

-- `text.split(sep, 1)`, where `sep in text`.
abbrev pub split_once : ℕ → Text → Option (Text × Text)
split_once sep [] = none
split_once sep (x ∷ xs) =
    let rest = split_once sep xs in if x == sep then some ([], xs) else in_front x rest

-- `is_space` is Python's test of a whitespace character.
module _ (is_space : ℕ → Bool) where
  abbrev pub lstrip : Text → Text
  lstrip [] = []
  lstrip (x ∷ xs) = let rest = lstrip xs in if is_space x then rest else x ∷ xs

  abbrev keep_or_drop : ℕ → Text → Text
  keep_or_drop x [] = if is_space x then [] else x ∷ []
  keep_or_drop x (y ∷ ys) = x ∷ y ∷ ys

  abbrev pub rstrip : Text → Text
  rstrip [] = []
  rstrip (x ∷ xs) = keep_or_drop x (rstrip xs)

  abbrev pub strip : Text → Text
  strip text = rstrip (lstrip text)

same_text-IsEquality_to : (a b : Text) → same_text a b ≡ true → a ≡ b
same_text-IsEquality_to [] [] h = refl
same_text-IsEquality_to [] (b ∷ ys) h = absurd (cc h)
same_text-IsEquality_to (a ∷ xs) [] h = absurd (cc h)
same_text-IsEquality_to (a ∷ xs) (b ∷ ys) h = elim (Bool-cases (a == b)) [
  | inl e ↦ ap₂ ◌∷◌ ((==_iff a b).0 e) (same_text-IsEquality_to xs ys (rw e at h))
  | inr e ↦ absurd (cc (rw e at h))
]

same_text_self : (a : Text) → same_text a a ≡ true
same_text_self [] = refl
same_text_self (a ∷ xs) = rw ((==_iff a a).1 refl) (same_text_self xs)

pub same_text-IsEquality : IsEquality same_text
same_text-IsEquality a b =
    (same_text-IsEquality_to a b, λ e. ap (same_text a) (sym e) ∙ same_text_self a)
