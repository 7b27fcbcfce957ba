-- ===== src/Dns.antt =====
-- simulations/dnsserver/main.go: the answer that the DNS server of the simulations makes, which
-- resolves every name to ::1. A result without a value is a run-time panic.
pub mod Labels
pub mod Answers
pub mod Serving
use mmar.Prelude.{
  Bool, not, ℕ, zero, suc, ◌+◌, ◌-◌, Bytes, codes, List, [], ◌∷◌, ◌++◌, Option, none, some, eqn,
  ltb, leb, length, take, drop, get_elem?, if◌then◌else◌,
}

infixl 5 ◌>>=◌
abbrev pub ◌>>=◌ : {A B : Type 0} → Option A → (A → Option B) → Option B
none >>= f = none
some a >>= f = f a

abbrev pub localhost_dns_server : Bytes
localhost_dns_server = codes "127.0.0.1:3535"

-- A slice of the buffer: the bytes up to its capacity, and its length.
pub record Slice : Type 0 where
  pub bytes : Bytes
  pub size : ℕ

-- `s[i]`.
unfoldable pub index : Slice → ℕ → Option ℕ
index s i = if ltb i s.size then get_elem? s.bytes i else none

-- `s[i:i+n]`, which may reach beyond the length, up to the capacity.
unfoldable pub slice : Slice → ℕ → ℕ → Option Bytes
slice s i n = if leb (i + n) (length s.bytes) then some (take n (drop i s.bytes)) else none

-- `s[i:n]` as a slice, up to the length of `s`, whose capacity it keeps.
unfoldable pub tail_slice : Bytes → ℕ → ℕ → Option Slice
tail_slice buffer i n =
    if ltb n i
    then none
    else (if leb n (length buffer)
        then some (record { bytes = drop i buffer; size = n - i })
        else none)

-- The loop that copies a label with its length, byte by byte.
unfoldable pub copy : Slice → ℕ → ℕ → Option Bytes
copy q i zero = some []
copy q i (suc n) = do b ← index q i; rest ← copy q (suc i) n; some (b ∷ rest)

-- What stands at an index: the end of the name, or a label with its length in front, copied byte by
-- byte. The end is found by the byte behind the index, which may be beyond the length.
pub data AtLabel : Type 0 where
  name_ends : AtLabel
  label_copied : ℕ → Bytes → AtLabel

by_byte : Slice → ℕ → Bytes → Option AtLabel
by_byte q i (zero ∷ s) = some name_ends
by_byte q i byte = do
  label ← index q i
  copied ← copy q i (label + 1)
  some (label_copied label copied)

unfoldable pub at_label : Slice → ℕ → Option AtLabel
unfolding by_byte
at_label q i = do byte ← slice q i 1; by_byte q i byte

abbrev pub extend : Bytes → Option (Bytes × ℕ) → Option (Bytes × ℕ)
extend copied none = none
extend copied (some (text, i)) = some (copied ++ text, i)

-- The loop over the labels: what is copied, and the index behind it. A round advances the index, so
-- `n` rounds are enough to pass the bound.
unfoldable pub read_name : ℕ → Slice → ℕ → ℕ → Option (Bytes × ℕ)
read_name zero q n i = some ([], i)
read_name (suc fuel) q n i =
    if ltb i n
    then elim (at_label q i) [
      | none ↦ none
      | some name_ends ↦ some ([], i)
      | some (label_copied label copied) ↦ extend copied (read_name fuel q n (i + label + 1))
    ]
    else some ([], i)

-- The buffer as it is handed over.
abbrev pub whole : Bytes → Slice
whole buffer = record { bytes = buffer; size = length buffer }

abbrev zeros : ℕ → Bytes
zeros zero = []
zeros (suc n) = 0 ∷ zeros n

-- What is appended to the response, in order.
response : Bytes → Bytes → Bytes → Bytes × ℕ → ℕ → Bytes → Bytes → Bytes
response transaction_id questions_count authority_rrs name terminator type class =
    let answer = type ++ (class ++ 0 ∷ 0 ∷ 14 ∷ 16 ∷ 0 ∷ 16 ∷ (zeros 15 ++ 1 ∷ [])) in
    let question = name.0 ++ terminator ∷ (type ++ (class ++ 192 ∷ 12 ∷ answer)) in
    transaction_id ++ 128 ∷ 0 ∷ (questions_count ++ 0 ∷ 1 ∷ (authority_rrs ++ 0 ∷ 0 ∷ question))

-- `handleDnsConn` up to the write, on a buffer of which the first `n` bytes were read: the response,
-- unless an index is out of range.
unfoldable pub build_response : Bytes → ℕ → Option Bytes
unfolding response
build_response buffer n = do
  transaction_id ← slice (whole buffer) 0 2
  questions_count ← slice (whole buffer) 4 2
  authority_rrs ← slice (whole buffer) 8 2
  msg_question ← tail_slice buffer 12 n
  name ← read_name n msg_question n 0
  terminator ← index msg_question name.1
  type ← slice msg_question (name.1 + 1) 2
  class ← slice msg_question (name.1 + 3) 2
  some (response transaction_id questions_count authority_rrs name terminator type class)

-- How a handler ends: its response is written, or cannot be written, or there is none.
pub data Handled : Type 0 where
  replied : Bytes → Handled
  write_fails : Handled
  panics : Handled

unfoldable pub by_write : Bool → Option Bytes → Handled
by_write writes none = panics
by_write writes (some answer) = if writes then replied answer else write_fails

-- `handleDnsConn`, by whether its response can be written.
handle_dns_conn : Bool → Bytes → ℕ → Handled
unfolding by_write
handle_dns_conn writes buffer n = by_write writes (build_response buffer n)

-- What a read from the socket gives: a datagram with its sender, and whether a response to it can be
-- written; or an error.
pub data DatagramRead : Type 0 where
  datagram : Bytes → Bytes → Bool → DatagramRead
  read_fails : DatagramRead

-- How the server stands after some reads.
pub data Standing : Type 0 where
  serving : Standing
  fatal : Standing
  panicked : Standing

abbrev pub buffer_size : ℕ
buffer_size = 512

-- The buffer of zeros that a datagram is read into; what does not fit is lost.
abbrev pub buffer_of : Bytes → Bytes
buffer_of sent = take buffer_size sent ++ zeros (buffer_size - length sent)

-- A handler that panics ends the process, and so does one whose response cannot be written.
after_handler : Bytes → Handled → List (Bytes × Bytes) × Standing → List (Bytes × Bytes) × Standing
after_handler sender panics later = ([], panicked)
after_handler sender write_fails later = ([], fatal)
after_handler sender (replied answer) (answers, standing) = ((sender, answer) ∷ answers, standing)

-- The loop over the reads: each answer with the one it goes to. A handler touches nothing but its own
-- buffer, so that it runs in a goroutine of its own makes no difference to its answer. The reads stand
-- in the order in which their handlers end.
serve_reads : List DatagramRead → List (Bytes × Bytes) × Standing
unfolding after_handler handle_dns_conn
serve_reads [] = ([], serving)
serve_reads (read_fails ∷ reads) = ([], fatal)
serve_reads (datagram sent sender writes ∷ reads) =
    after_handler sender (handle_dns_conn writes (buffer_of sent) (length (take buffer_size sent)))
      (serve_reads reads)

-- `StartDnsServer`, by whether its address resolves and can be listened on.
unfoldable pub start_dns_server :
    (Bytes → Bool) → (Bytes → Bool) → List DatagramRead → List (Bytes × Bytes) × Standing
unfolding serve_reads
start_dns_server resolves listens reads =
    if not (resolves localhost_dns_server)
    then ([], fatal)
    else if not (listens localhost_dns_server)
    then ([], fatal)
    else serve_reads reads
