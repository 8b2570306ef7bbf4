-- ===== src/Tests/Info.antt =====
-- A body with two pairs, and two nodes that report indexes of the same name in two namespaces.
use aerospike_client_python.Base.{ℕ, ◌==◌, Bool, none, [], ◌∷◌, map, ◌≡◌, refl}
use aerospike_client_python.Info.{Text}
use aerospike_client_python.Info.Bodies.{Dict, Responses, to_dict, parse_info_body}
use aerospike_client_python.Info.RoundTrip.{print, parse_info_body-print}
use aerospike_client_python.Info.Indexes.{
  text_indexname, text_ns, index_of, all_records, parse_index_list,
}
use aerospike_client_python.Info.Indexes.Laws.{firsts, wanted, parse_index_list-firsts}

abbrev text_a : Text
text_a = b'a' ∷ []

abbrev pairs : Dict
pairs = (text_a, b'x' ∷ b'=' ∷ b'y' ∷ []) ∷ (b'b' ∷ [], []) ∷ []

parse_info_body-print_example : parse_info_body (print b';' pairs) ≡ to_dict pairs
parse_info_body-print_example = parse_info_body-print pairs ((refl, refl), ((refl, refl), tt))

abbrev is_space : ℕ → Bool
is_space c = c == b' '

abbrev index_in : Text → Text
index_in ns = print b':' ((text_indexname, text_a) ∷ (text_ns, ns) ∷ [])

abbrev responses : Responses
responses =
    (text_a, (text_a, index_in (b'm' ∷ [])) ∷ [])
    ∷ (b'b' ∷ [], (text_a, index_in (b'n' ∷ [])) ∷ [])
    ∷ []

parse_index_list-responses :
    map (λ i. i.namespace) (parse_index_list is_space none responses) ≡ (b'm' ∷ []) ∷ []
unfolding parse_index_list
parse_index_list-responses = refl

parse_index_list-firsts_example :
    parse_index_list is_space none responses
    ≡ map index_of (firsts (wanted is_space none (all_records is_space none responses)))
parse_index_list-firsts_example = parse_index_list-firsts is_space none responses
