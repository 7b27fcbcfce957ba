-- ===== src/Http.antt =====
-- What the program uses of `net/http`: a response writer, with the headers, the status and the body
-- that its calls ask for. What is sent of them is `net/http`'s: it sends no body in answer to HEAD and
-- with a status that allows none, nor more of it than Content-Length says, and sends a status below 200
-- ahead of the final one.
-- Header keys are those that the program writes, which are in canonical form already.
use mmar.Prelude.Maps.{Map, lookup, insert}
use mmar.Prelude.{ℕ, Bytes, List, [], ◌∷◌, ◌++◌, Option, none, some, bytes_eq}

pub record ResponseWriter : Type 0 where
  pub headers : Map Bytes (List Bytes)
  pub status : Option ℕ
  pub body : Bytes

-- The fields of a `Response` that the server fills in.
pub record ServerResponse : Type 0 where
  pub status : Bytes
  pub status_code : ℕ
  pub body : Bytes

abbrev pub status_ok : ℕ
status_ok = 200

values : Option (List Bytes) → List Bytes
values none = []
values (some vs) = vs

-- `w.Header().Set(key, value)`.
unfoldable pub set_header : Bytes → Bytes → ResponseWriter → ResponseWriter
set_header k v w = record w { headers = insert k (v ∷ []) w.headers }

-- `w.Header().Add(key, value)`.
unfoldable pub add_header : Bytes → Bytes → ResponseWriter → ResponseWriter
unfolding values
add_header k v w = record w { headers = insert k (values (lookup k w.headers) ++ v ∷ []) w.headers }

first_status : Option ℕ → ℕ → ℕ
first_status none code = code
first_status (some s) code = s

-- Only the first call of `WriteHeader` counts.
unfoldable pub write_header : ℕ → ResponseWriter → ResponseWriter
unfolding first_status
write_header code w = record w { status = some (first_status w.status code) }

-- The first write sends the status 200 if none was written.
unfoldable pub write : Bytes → ResponseWriter → ResponseWriter
unfolding write_header
write bytes w = let v = write_header status_ok w in record v { body = v.body ++ bytes }

abbrev pub fresh_writer : ResponseWriter
fresh_writer = record { headers = []; status = none; body = [] }
