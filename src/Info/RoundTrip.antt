-- ===== src/Info/RoundTrip.antt =====
-- What aerospike_sdk/info_shared.py reads back of a body.
use aerospike_client_python.Base.{
  ℕ, ◌==◌, Bool, false, any, or_false, ==_iff, append-nil, Bool-cases, some, List, [], ◌∷◌, ◌++◌,
  All, ◌≡◌, refl, sym, ap, ap₂, ◌∙◌, inl, inr,
}
use aerospike_client_python.Info.{Text, push, split, in_front, split_once}
use aerospike_client_python.Info.Bodies.{Dict, keep_some, pairs_of, to_dict, parse_info_body}

abbrev pub holds : ℕ → Text → Bool
holds c text = any (λ x. x == c) text

-- `k=v`, and the pairs with `sep` between them.
abbrev pub print_pair : Text × Text → Text
print_pair (k, v) = k ++ b'=' ∷ v

abbrev pub print_after : ℕ → Dict → Text
print_after sep [] = []
print_after sep (pair ∷ pairs) = sep ∷ print_pair pair ++ print_after sep pairs

abbrev pub print : ℕ → Dict → Text
print sep [] = []
print sep (pair ∷ pairs) = print_pair pair ++ print_after sep pairs

-- A pair that a body with `sep` between its pairs can carry.
abbrev pub Fits : ℕ → Text × Text → Type 0
Fits sep (k, v) = (holds b'=' k ≡ false) × (holds sep (k ++ b'=' ∷ v) ≡ false)

split_once-print_pair :
    (k v : Text) → holds b'=' k ≡ false → split_once b'=' (k ++ b'=' ∷ v) ≡ some (k, v)
split_once-print_pair [] v h = refl
split_once-print_pair (x ∷ k) v h =
    let p = or_false (x == b'=') (holds b'=' k) h in
    rw p.0 (ap (in_front x) (split_once-print_pair k v p.1))

-- A text without `sep` is the first piece of what follows it.
abbrev pub put_before : Text → List Text → List Text
put_before text [] = text ∷ []
put_before text (piece ∷ pieces) = (text ++ piece) ∷ pieces

push-put_before :
    (x : ℕ) (text : Text) (pieces : List Text)
    → push x (put_before text pieces) ≡ put_before (x ∷ text) pieces
push-put_before x text [] = refl
push-put_before x text (piece ∷ pieces) = refl

put_before_nil : (sep : ℕ) (rest : Text) → put_before [] (split sep rest) ≡ split sep rest
put_before_nil sep [] = refl
put_before_nil sep (x ∷ rest) = elim (Bool-cases (x == sep)) [
  | inl e ↦ rw e refl
  | inr e ↦ rw e (go (split sep rest))
]
  where
    go : (pieces : List Text) → put_before [] (push x pieces) ≡ push x pieces
    go [] = refl
    go (piece ∷ pieces) = refl

split-append :
    (sep : ℕ) (text rest : Text)
    → holds sep text ≡ false
    → split sep (text ++ rest) ≡ put_before text (split sep rest)
split-append sep [] rest h = sym (put_before_nil sep rest)
split-append sep (x ∷ text) rest h =
    let p = or_false (x == sep) (holds sep text) h in
    rw p.0 (ap (push x) (split-append sep text rest p.1) ∙ push-put_before x text (split sep rest))

-- The pieces of a printed body, from the first pair on.
split-print_after :
    (sep : ℕ) (pair : Text × Text) (pairs : Dict)
    → Fits sep pair
    → All (Fits sep) pairs
    → pairs_of (put_before (print_pair pair) (split sep (print_after sep pairs))) ≡ pair ∷ pairs
split-print_after sep (k, v) [] h hs =
    ap (λ piece. keep_some (split_once b'=' piece) []) (append-nil (print_pair (k, v)))
    ∙ ap (λ o. keep_some o []) (split_once-print_pair k v h.0)
split-print_after sep (k, v) ((j, w) ∷ pairs) h hs =
    let next : split sep (print_after sep ((j, w) ∷ pairs))
        ≡ [] ∷ put_before (print_pair (j, w)) (split sep (print_after sep pairs)) =
      rw ((==_iff sep sep).1 refl)
        (ap (◌∷◌ []) (split-append sep (print_pair (j, w)) (print_after sep pairs) (hs.0.1))) in
    ap (λ pieces. pairs_of (put_before (print_pair (k, v)) pieces)) next
    ∙ ap₂ (λ piece rest. keep_some (split_once b'=' piece) rest) (append-nil (print_pair (k, v)))
        (split-print_after sep (j, w) pairs hs.0 hs.1)
    ∙ ap (λ o. keep_some o ((j, w) ∷ pairs)) (split_once-print_pair k v h.0)

pairs_of-print :
    (sep : ℕ) (pairs : Dict) → All (Fits sep) pairs → pairs_of (split sep (print sep pairs)) ≡ pairs
pairs_of-print sep [] h = refl
pairs_of-print sep (pair ∷ pairs) h =
    ap pairs_of (split-append sep (print_pair pair) (print_after sep pairs) (h.0.1))
    ∙ split-print_after sep pair pairs h.0 h.1

-- A body that lists pairs, whose keys hold no `=` and which hold no `;`, is read back as the
-- dictionary of these pairs: values may hold `=`, and both may be empty.
pub parse_info_body-print :
    (pairs : Dict) → All (Fits b';') pairs → parse_info_body (print b';' pairs) ≡ to_dict pairs
unfolding parse_info_body
parse_info_body-print pairs h = ap to_dict (pairs_of-print b';' pairs h)
