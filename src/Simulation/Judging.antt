-- ===== src/Simulation/Judging.antt =====
-- simulations/simulation_utils.go: when `validateRequestResponse` is content with a response.
use mmar.Prelude.Maps.{Map, lookup}
use mmar.Prelude.{
  ◌≡◌, ◌↔◌, refl, true, Bytes, List, [], ◌∷◌, ◌++◌, some, arith, bytes_eq, ◌==◌, contains,
  Bool-cases, Option-cases, inl, inr, eq_of_beq, eq_refl,
}
use mmar.Simulation.{
  Expected, Fetched, Decoded, value, not_json, header_complaints, same_json, body_complaints,
  validate_request_response,
}

-- The response has every header that is expected, among its values of that key.
abbrev pub HasHeaders : Map Bytes (List Bytes) → Map Bytes Bytes → Type 0
HasHeaders header [] = Unit
HasHeaders header ((key, v) ∷ rest) =
    ((vals : List Bytes) × (lookup key header ≡ some vals) × (contains vals v ≡ true))
    × HasHeaders header rest

module _ {Json : Type 0} (decode : Bytes → Decoded Json) (marshal : Json → Bytes)
    (null : Json) where
  -- A JSON body is printed as the expected one; a body that is no JSON is the expected text, where
  -- no JSON is expected.
  abbrev pub HasBody : Expected Json → Decoded Json → Type 0
  HasBody expected (value v) = marshal v ≡ marshal expected.json_body
  HasBody expected (not_json text) =
      (text ≡ expected.text_body) × (marshal null ≡ marshal expected.json_body)

  -- What a response must be.
  pub record Accepted (expected : Expected Json) (resp : Fetched) : Type 0 where
    pub status : resp.status_code ≡ expected.status_code
    pub headers : HasHeaders resp.header expected.headers
    pub body : HasBody expected (decode resp.body)

  headers_iff :
      (header : Map Bytes (List Bytes)) (expected : Map Bytes Bytes)
      → (header_complaints header expected ≡ []) ↔ HasHeaders header expected
  unfolding header_complaints
  headers_iff header [] = (λ h. tt, λ h. refl)
  headers_iff header ((key, v) ∷ rest) = elim (Option-cases (lookup key header)) [
    | inl e ↦ (λ h. absurd (ground (arith, h, e)), λ h. absurd (ground (arith, h, e)))
    | inr (vals, e) ↦ elim (Bool-cases (contains vals v)) [
      | inl has ↦ (
        λ h. ((vals, e, has), (headers_iff header rest).0 (ground (arith, h, e, has))),
        λ h. ground (arith, e, has, (headers_iff header rest).1 h.1),
      )
      | inr lacks ↦ (
        λ h. absurd (ground (arith, h, e, lacks)),
        λ h. let (others, f, has) = h.0 in absurd (ground (arith, e, f, has, lacks)),
      )
    ]
  ]

  same_json_iff :
      (expected actual : Json)
      → (same_json decode marshal null expected actual ≡ []) ↔ (marshal actual ≡ marshal expected)
  unfolding same_json
  same_json_iff expected actual =
      ground (arith, bytes_eq.same_iff (marshal actual) (marshal expected))

  body_iff :
      (expected : Expected Json) (d : Decoded Json)
      → (body_complaints decode marshal null expected d ≡ []) ↔ HasBody expected d
  unfolding body_complaints
  body_iff expected (value v) = same_json_iff expected.json_body v
  body_iff expected (not_json text) = elim (Bool-cases (text == expected.text_body)) [
    | inl same ↦ rw same (
      λ h. (eq_of_beq text expected.text_body same, (same_json_iff expected.json_body null).0 h),
      λ h. (same_json_iff expected.json_body null).1 h.1,
    )
    | inr other ↦
        rw other (λ h. absurd (cc), λ h. absurd (ground (arith, other, h.0, eq_refl text)))
  ]

  append_empty : {A : Type 0} (xs ys : List A) → (xs ++ ys ≡ []) ↔ ((xs ≡ []) × (ys ≡ []))
  append_empty [] ys = (λ h. (refl, h), λ h. h.1)
  append_empty (x ∷ xs) ys = (λ h. absurd (cc), λ h. absurd (cc))

  -- The simulations have no complaint about a response exactly if it has the status that is expected,
  -- all the headers, and the body: JSON that is printed alike, or the text where no JSON is expected.
  pub validate_request_response_iff :
      (expected : Expected Json) (resp : Fetched)
      → (validate_request_response decode marshal null expected resp ≡ []) ↔ Accepted expected resp
  unfolding validate_request_response
  validate_request_response_iff expected resp = (
    λ h.
        let (front, judged) =
          (append_empty (_ ++ header_complaints resp.header expected.headers) _).0 h in
        let (status, listed) =
          (append_empty _ (header_complaints resp.header expected.headers)).0 front in
        record {
          status = ground (arith, status);
          headers = (headers_iff resp.header expected.headers).0 listed;
          body = (body_iff expected (decode resp.body)).0 judged;
        },
    λ a.
        rw
          (
            (headers_iff resp.header expected.headers).1 a.headers,
            (body_iff expected (decode resp.body)).1 a.body,
            a.status,
          )
          (ground arith),
  )
