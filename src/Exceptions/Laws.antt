-- ===== src/Exceptions/Laws.antt =====
-- What the conversion of aerospike_sdk/exceptions.py does with a code, a class and a doubt.
use aerospike_client_python.Base.{
  String, Bool, true, false, Option, none, some, ◌≡◌, refl, ◌↔◌, ◌⊎◌, inl, inr, Option-cases,
}
use aerospike_client_python.Exceptions.{ResultCode, udf_bad_response, rc_to_type}
use aerospike_client_python.Exceptions.Convert.{
  Native, Kind, server_error, max_error_rate, timeout, connection, invalid_node, udf_failed,
  commit_failed, generic, foreign, Attributes, Exceptions, pnc, fields, convert_pnc_exception,
  result_code_to_exception,
}

module _ (N : Native) where
  -- The code that a native failure names.
  abbrev pub own_code : Kind → Attributes N → Option ResultCode
  own_code (server_error rc) a = some rc
  own_code udf_failed a = some udf_bad_response
  own_code foreign a = none
  own_code max_error_rate a = a.code
  own_code timeout a = a.code
  own_code connection a = a.code
  own_code invalid_node a = a.code
  own_code commit_failed a = a.code
  own_code generic a = a.code

  -- The kinds that are classified by their code.
  abbrev pub by_code : Kind → Bool
  by_code (server_error rc) = true
  by_code udf_failed = true
  by_code generic = true
  by_code _ = false

  abbrev pub is_foreign : Kind → Bool
  is_foreign foreign = true
  is_foreign _ = false

  -- Converting a native failure that names a code keeps the code and the doubt, and a failure of
  -- the server, of a UDF or of the generic class is given the class of its code.
  pub convert_pnc_exception-code :
      (k : Kind) (a : Attributes N) (subs : Exceptions N) (hint : Option String) (rc : ResultCode)
      → own_code k a ≡ some rc
      → let e = fields N (convert_pnc_exception N (pnc k a subs) hint) in
        (e.result_code ≡ some rc)
        × (e.in_doubt ≡ a.in_doubt)
        × (by_code k ≡ true → e.type ≡ rc_to_type rc)
  unfolding convert_pnc_exception result_code_to_exception
  convert_pnc_exception-code (server_error c) a subs hint rc h = (h, refl, λ _. cc h)
  convert_pnc_exception-code udf_failed a subs hint rc h = (h, refl, λ _. cc h)
  convert_pnc_exception-code foreign a subs hint rc h = absurd (cc h)
  convert_pnc_exception-code max_error_rate a subs hint rc h = (h, refl, λ e. absurd (cc e))
  convert_pnc_exception-code timeout a subs hint rc h = (h, refl, λ e. absurd (cc e))
  convert_pnc_exception-code connection a subs hint rc h = (h, refl, λ e. absurd (cc e))
  convert_pnc_exception-code invalid_node a subs hint rc h = (h, refl, λ e. absurd (cc e))
  convert_pnc_exception-code commit_failed a subs hint rc h = (h, refl, λ e. absurd (cc e))
  convert_pnc_exception-code generic a subs hint rc h = rw (h) (refl, refl, λ _. refl)

  typed_no_code :
      (c : Option ResultCode) → (c ≡ none) ↔ ((false ≡ true) ⊎ ((false ≡ false) × (c ≡ none)))
  typed_no_code c = (λ e. inr (refl, e), λ d. elim d [ inl f ↦ absurd (cc f) | inr p ↦ p.1 ])

  -- An exception of the native client or of Python converts to an error without a code exactly when
  -- it is none of the client's, or names no code and is of a class with its own type.
  pub convert_pnc_exception-no_code :
      (k : Kind) (a : Attributes N) (subs : Exceptions N) (hint : Option String)
      → let e = fields N (convert_pnc_exception N (pnc k a subs) hint) in
        (e.result_code ≡ none)
        ↔ ((is_foreign k ≡ true) ⊎ ((by_code k ≡ false) × (own_code k a ≡ none)))
  unfolding convert_pnc_exception result_code_to_exception
  convert_pnc_exception-no_code (server_error c) a subs hint =
      (λ e. absurd (cc e), λ d. elim d [ inl f ↦ absurd (cc f) | inr p ↦ absurd (cc (p.0)) ])
  convert_pnc_exception-no_code udf_failed a subs hint =
      (λ e. absurd (cc e), λ d. elim d [ inl f ↦ absurd (cc f) | inr p ↦ absurd (cc (p.0)) ])
  convert_pnc_exception-no_code foreign a subs hint = (λ e. inl refl, λ d. refl)
  convert_pnc_exception-no_code max_error_rate a subs hint = typed_no_code a.code
  convert_pnc_exception-no_code timeout a subs hint = typed_no_code a.code
  convert_pnc_exception-no_code connection a subs hint = typed_no_code a.code
  convert_pnc_exception-no_code invalid_node a subs hint = typed_no_code a.code
  convert_pnc_exception-no_code commit_failed a subs hint = typed_no_code a.code
  convert_pnc_exception-no_code generic a subs hint = elim (Option-cases a.code) [
    | inl p ↦
        rw p (λ e. absurd (cc e), λ d. elim d [ inl f ↦ absurd (cc f) | inr q ↦ absurd (cc (q.0)) ])
    | inr p ↦
        rw (p.1)
          (λ e. absurd (cc e), λ d. elim d [ inl f ↦ absurd (cc f) | inr q ↦ absurd (cc (q.0)) ])
  ]
