-- ===== src/Server/Requests/Headers.antt =====
-- internal/server/main.go: the headers of a response on the writer of its request.
use mmar.Http.{ResponseWriter, set_header, add_header}
use mmar.Prelude.Maps.{lookup, lookup-insert}
use mmar.Prelude.{
  ◌≡◌, refl, ◌∙◌, Bytes, List, [], ◌∷◌, ◌++◌, Option, some, arith, bytes_eq, ◌==◌, if◌then◌else◌,
  append_assoc, append-nil,
}
use mmar.Server.Requests.{copy_headers, add_headers}

-- The values of a name behind a response's headers, each with its first value and the others: those
-- of its last entry, and what was there before if it has none.
abbrev pub given :
    List (Bytes × Bytes × List Bytes) → Bytes → Option (List Bytes) → Option (List Bytes)
given [] name before = before
given ((k, v, vs) ∷ rest) name before =
    given rest name (if k == name then some (v ∷ vs) else before)

-- A writer has got a response's headers, and nothing else.
pub record HasHeaders (headers : List (Bytes × Bytes × List Bytes)) (w copied : ResponseWriter)
    : Type 0 where
  pub values :
      (name : Bytes) → lookup name copied.headers ≡ given headers name (lookup name w.headers)
  pub status : copied.status ≡ w.status
  pub body : copied.body ≡ w.body

-- A writer that differs in one name's values only.
record Sets (k : Bytes) (vs : List Bytes) (w after : ResponseWriter) : Type 0 where
  values :
      (name : Bytes)
      → lookup name after.headers ≡ (if k == name then some vs else lookup name w.headers)
  status : after.status ≡ w.status
  body : after.body ≡ w.body

set_header-Sets : (k v : Bytes) (w : ResponseWriter) → Sets k (v ∷ []) w (set_header k v w)
unfolding set_header
set_header-Sets k v w = record {
  values = λ name. lookup-insert k name (v ∷ []) w.headers;
  status = refl;
  body = refl;
}

add_header-Sets :
    (k v : Bytes) (us : List Bytes) (w q : ResponseWriter)
    → Sets k us w q
    → Sets k (us ++ v ∷ []) w (add_header k v q)
unfolding add_header
add_header-Sets k v us w q s = record {
  values = λ name.
      let here : lookup k q.headers ≡ some us = ground (arith, s.values k, bytes_eq.same_iff k k) in
      rw here (
        ground (
          arith,
          lookup-insert k name (us ++ v ∷ []) q.headers,
          s.values name,
          bytes_eq.same_iff k name,
        ));
  status = s.status;
  body = s.body;
}

add_headers-Sets :
    (k : Bytes) (vs us : List Bytes) (w q : ResponseWriter)
    → Sets k us w q
    → Sets k (us ++ vs) w (add_headers k vs q)
unfolding add_headers
add_headers-Sets k [] us w q s = rw append-nil s
add_headers-Sets k (v ∷ vs) us w q s =
    let later =
      add_headers-Sets k vs (us ++ v ∷ []) w (add_header k v q) (add_header-Sets k v us w q s) in
    rw append_assoc at later

pub copy_headers-HasHeaders :
    (headers : List (Bytes × Bytes × List Bytes)) (w : ResponseWriter)
    → HasHeaders headers w (copy_headers headers w)
unfolding copy_headers
copy_headers-HasHeaders [] w = record { values = λ name. refl; status = refl; body = refl }
copy_headers-HasHeaders ((k, v, vs) ∷ rest) w =
    let s = add_headers-Sets k vs (v ∷ []) w (set_header k v w) (set_header-Sets k v w) in
    let h = copy_headers-HasHeaders rest (add_headers k vs (set_header k v w)) in
    record {
      values = λ name. rw (h.values name, s.values name) refl;
      status = h.status ∙ s.status;
      body = h.body ∙ s.body;
    }
