-- ===== src/Server/Serialize.antt =====
-- internal/server/utils.go: a request is written out to be tunneled. The body is
-- the sequence of results that `Body.Read` gives: the bytes, whether the read took longer than its
-- timer allows, and the error if there is one. The writer of the headers is `net/http`'s.
pub mod Limits
use mmar.Constants.{max_req_body_size}
use mmar.Http.{ServerResponse}
use mmar.Prelude.Decimal.{itoa}
use mmar.Prelude.Maps.{Map, insert}
use mmar.Prelude.{
  ℕ, ◌+◌, Bool, true, false, Bytes, codes, List, [], ◌∷◌, ◌++◌, Option, none, some, ltb, length,
  bytes_eq, if◌then◌else◌,
}
use mmar.Server.State.{
  Cause, read_body_chunk_err, read_body_chunk_timeout_err, max_req_body_size_err,
}

pub data ReadEnd : Type 0 where
  more : ReadEnd
  at_eof : ReadEnd
  failed : ReadEnd

pub record BodyRead : Type 0 where
  pub bytes : Bytes
  pub timed_out : Bool
  pub after : ReadEnd

pub record Request : Type 0 where
  pub method : Bytes
  pub request_uri : Bytes
  pub proto : Bytes
  pub host : Bytes
  pub headers : Map Bytes (List Bytes)
  pub body : List BodyRead

-- What the goroutine does to the request's context, and what it sends, if anything.
pub data Serialized : Type 0 where
  sent : Bytes → Serialized
  given_up : Cause → Serialized
  -- the body gives nothing more, and no error
  still_reading : Serialized

-- The first cause of a context stays.
first_cause : Option Cause → Cause → Cause
first_cause none why = why
first_cause (some first) why = first

-- `cancelRead`, when the timer of a read fires.
cancel_read : Bool → Option Cause → Option Cause
unfolding first_cause
cancel_read false cause = cause
cancel_read true cause = some (first_cause cause read_body_chunk_timeout_err)

-- The body that was read, unless the context is cancelled by then: a handler whose context is
-- cancelled is gone, and receives no more.
finish_read : Option Cause → Bytes → Serialized
finish_read none body = sent body
finish_read (some why) body = given_up why

after_read : BodyRead → Option Cause → ℕ → Bytes → Serialized → Serialized
unfolding first_cause finish_read
after_read r cause content_length body rest =
    if ltb max_req_body_size content_length
    then given_up (first_cause cause max_req_body_size_err)
    else elim r.after [
      | more ↦ rest
      | at_eof ↦ finish_read cause (body ++ r.bytes)
      | failed ↦ given_up (first_cause cause read_body_chunk_err)
    ]

waits : Option Cause → Serialized
waits none = still_reading
waits (some why) = given_up why

-- The loop, with the length and the bytes read so far.
unfoldable pub read_body : List BodyRead → Option Cause → ℕ → Bytes → Serialized
unfolding after_read cancel_read waits
read_body [] cause content_length body = waits cause
read_body (r ∷ rs) cause content_length body =
    let c = cancel_read r.timed_out cause in
    let n = content_length + length r.bytes in
    let rest = read_body rs c n (body ++ r.bytes) in after_read r c n body rest

module _ (write_headers : Map Bytes (List Bytes) → Bytes) where
  -- The request line and the host, the headers with the length that was read, and the body.
  unfoldable pub wire_request : Request → Bytes → Bytes
  wire_request r body =
      r.method
      ++ b' ' ∷ r.request_uri
      ++ b' ' ∷ r.proto
      ++ codes "\nHost: "
      ++ r.host
      ++ b'\n' ∷ []
      ++ write_headers (insert (codes "Content-Length") (itoa (length body) ∷ []) r.headers)
      ++ b'\n' ∷ body
      ++ b'\n' ∷ []

  write_out : Request → Serialized → Serialized
  write_out r (sent body) = sent (wire_request r body)
  write_out r (given_up why) = given_up why
  write_out r still_reading = still_reading

  unfoldable pub serialize_request : Request → Serialized
  unfolding write_out
  serialize_request r = write_out r (read_body r.body none 0 [])

-- The response that the server makes up, as `net/http`'s `Response.Write` writes it to a buffer.
abbrev pub create_serialized_server_resp : (ServerResponse → Bytes) → Bytes → ℕ → Bytes → Bytes
create_serialized_server_resp write_response status status_code body =
    write_response (record { status = status; status_code = status_code; body = body })
