-- ===== src/Server/Serialize/Limits.antt =====
-- internal/server/utils.go: how the loop over a request's body ends.
use mmar.Constants.{max_req_body_size}
use mmar.Prelude.{
  ℕ, ◌+◌, ◌≤◌, ◌≡◌, false, Bytes, List, [], ◌∷◌, ◌++◌, Option, none, some, ltb, length,
  length-append, append_assoc, append-nil, arith, ◌⊎◌, inl, inr, if◌then◌else◌,
}
use mmar.Server.Serialize.{
  more, at_eof, BodyRead, Serialized, sent, given_up, cancel_read, after_read, read_body,
}
use mmar.Server.State.{Cause, max_req_body_size_err}

-- A body that arrives in time and to its end, in these pieces.
abbrev pub IsInTime : List BodyRead → Type 0
IsInTime [] = ⊥
IsInTime (r ∷ []) = (r.timed_out ≡ false) × (r.after ≡ at_eof)
IsInTime (r ∷ q ∷ rs) = (r.timed_out ≡ false) × (r.after ≡ more) × IsInTime (q ∷ rs)

abbrev pub body_of : List BodyRead → Bytes
body_of [] = []
body_of (r ∷ rs) = r.bytes ++ body_of rs

-- One round that reads on.
read_body_step :
    (r : BodyRead) (rs : List BodyRead) (n : ℕ) (body : Bytes)
    → r.timed_out ≡ false
    → r.after ≡ more
    → read_body (r ∷ rs) none n body ≡ (
        if ltb max_req_body_size (n + length r.bytes)
        then given_up max_req_body_size_err
        else read_body rs none (n + length r.bytes) (body ++ r.bytes))
unfolding read_body
read_body_step r rs n body in_time goes_on = ground arith

read_body_last :
    (r : BodyRead) (n : ℕ) (body : Bytes)
    → r.timed_out ≡ false
    → r.after ≡ at_eof
    → read_body (r ∷ []) none n body ≡ (
        if ltb max_req_body_size (n + length r.bytes)
        then given_up max_req_body_size_err
        else sent (body ++ r.bytes))
unfolding read_body
read_body_last r n body in_time ends = ground arith

read_body-in_time :
    (rs : List BodyRead) (n : ℕ) (body : Bytes)
    → IsInTime rs
    → read_body rs none n body ≡ (
        if ltb max_req_body_size (n + length (body_of rs))
        then given_up max_req_body_size_err
        else sent (body ++ body_of rs))
read_body-in_time [] n body h = elim h [ ]
read_body-in_time (r ∷ []) n body h = rw (read_body_last r n body h.0 h.1, append-nil)
read_body-in_time (r ∷ q ∷ rs) n body h = ground (
  arith,
  read_body_step r (q ∷ rs) n body h.0 h.1,
  read_body-in_time (q ∷ rs) (n + length r.bytes) (body ++ r.bytes) h.2,
  length-append r.bytes (body_of (q ∷ rs)),
  append_assoc body r.bytes (body_of (q ∷ rs)),
)

-- A body that arrives in time and to its end is sent whole, or given up as too large when it is
-- longer than ten million bytes; nothing else happens to it.
pub read_body_lem :
    (rs : List BodyRead)
    → IsInTime rs
    → read_body rs none 0 [] ≡ (
        if ltb max_req_body_size (length (body_of rs))
        then given_up max_req_body_size_err
        else sent (body_of rs))
read_body_lem rs h = ground (arith, read_body-in_time rs 0 [] h)

-- What ends a round, whatever the rest of the loop does.
after_read-sent :
    (r : BodyRead) (cause : Option Cause) (n : ℕ) (body out : Bytes) (rest : Serialized)
    → after_read r cause n body rest ≡ sent out
    → (n ≤ max_req_body_size) × ((rest ≡ sent out) ⊎ (out ≡ body ++ r.bytes))
unfolding after_read
after_read-sent r cause n body out rest h = (ground arith, ground arith)

-- Whatever comes in, in time or not, nothing longer than ten million bytes is sent on.
pub sent-small :
    (rs : List BodyRead) (cause : Option Cause) (n : ℕ) (read out : Bytes)
    → length read ≡ n
    → read_body rs cause n read ≡ sent out
    → length out ≤ max_req_body_size
unfolding read_body
sent-small [] none n read out size h = absurd (ground arith)
sent-small [] (some why) n read out size h = absurd (ground arith)
sent-small (r ∷ rs) cause n read out size h =
    let c = cancel_read r.timed_out cause in
    let rest = read_body rs c (n + length r.bytes) (read ++ r.bytes) in
    let (fits, cases) = after_read-sent r c (n + length r.bytes) read out rest h in
    elim cases [
      | inl later ↦
          sent-small rs c (n + length r.bytes) (read ++ r.bytes) out
            (omega (arith, length-append read r.bytes, size)) later
      | inr ends ↦ rw (ends, length-append) (omega (arith, fits, size))
    ]
