-- ===== src/Prelude/Io.antt =====
-- What the program uses of Go's readers: a `bufio.Reader` over a connection or a buffer is the
-- bytes that will still arrive, and the error that the source gives once they have run out. A
-- call returns its outcome and the reader that it leaves, after an error too. A run-time panic
-- ends the process.
use mmar.Prelude.{
  ℕ, ◌≡◌, Bool, true, false, Bytes, [], ◌∷◌, ◌++◌, eqn, leb, length, take, drop, if◌then◌else◌, All,
  ◌≢◌, arith,
}

-- The errors that the program tells apart, or hands on.
pub data Error : Type 0 where
  eof unexpected_eof err_closed econnreset deadline_exceeded econnrefused : Error
  invalid_message_protocol_version invalid_message_type : Error
  syntax range other : Error

pub data Outcome {ℓ} (A : Type ℓ) : Type ℓ where
  ok : A → Outcome A
  err : Error → Outcome A
  panic : Outcome A

pub record Reader : Type 0 where
  pub pending : Bytes
  pub fails_with : Error

abbrev pub Read {ℓ} : Type ℓ → Type ℓ
Read A = Reader → Outcome A × Reader

abbrev pub bind_outcome {ℓ κ} :
    {A : Type ℓ} {B : Type κ} → Outcome A × Reader → (A → Read B) → Outcome B × Reader
bind_outcome (ok a, r) f = f a r
bind_outcome (err e, r) f = (err e, r)
bind_outcome (panic, r) f = (panic, r)

infixl 5 ◌>>=◌ ◌>>◌
abbrev pub ◌>>=◌ {ℓ κ} : {A : Type ℓ} {B : Type κ} → Read A → (A → Read B) → Read B
◌>>=◌ m f r = bind_outcome (m r) f

abbrev pub ◌>>◌ {ℓ} : {B : Type ℓ} → Read (Unit {0}) → Read B → Read B
m >> k = m >>= λ _. k

-- A step that reads nothing.
abbrev pub lift {ℓ} : {A : Type ℓ} → Outcome A → Read A
lift o r = (o, r)

unfoldable pub read_byte_from : Bytes → Error → Outcome ℕ × Reader
read_byte_from [] e = (err e, record { pending = []; fails_with = e })
read_byte_from (b ∷ bs) e = (ok b, record { pending = bs; fails_with = e })

-- `(*bufio.Reader).ReadByte`.
unfoldable pub read_byte : Read ℕ
unfolding read_byte_from
read_byte r = read_byte_from r.pending r.fails_with

-- The text up to the first delimiter, and what follows that; `none` when there is no delimiter.
unfoldable pub cut_at : ℕ → Bytes → Bool × Bytes × Bytes
cut_at d [] = (false, [], [])
cut_at d (b ∷ bs) =
    let (found, before, after) = cut_at d bs in
    if eqn b d then (true, [], bs) else (found, b ∷ before, after)

pub cut_at_delimiter :
    (d : ℕ) (s rest : Bytes) → All (λ c. c ≢ d) s → cut_at d (s ++ d ∷ rest) ≡ (true, s, rest)
unfolding cut_at
cut_at_delimiter d [] rest h = ground arith
cut_at_delimiter d (c ∷ s) rest h = ground (arith, cut_at_delimiter d s rest h.1)

-- `(*bufio.Reader).ReadString(delim)` with the delimiter stripped, as the one caller strips it.
-- Without a delimiter all that is left is consumed, and the source's error returned.
unfoldable pub read_line : ℕ → Read Bytes
unfolding cut_at
read_line d r =
    let (found, before, after) = cut_at d r.pending in
    if found
    then (ok before, record r { pending = after })
    else (err r.fails_with, record r { pending = [] })

-- The error of a read that stopped before the buffer was full: the end of the input in the middle
-- of it is `io.ErrUnexpectedEOF`.
short_read : Bytes → Error → Error
short_read (b ∷ bs) eof = unexpected_eof
short_read _ e = e

-- `io.ReadFull` into a buffer of `n` bytes.
unfoldable pub read_full : ℕ → Read Bytes
unfolding short_read
read_full n r =
    if leb n (length r.pending)
    then (ok (take n r.pending), record r { pending = drop n r.pending })
    else (err (short_read r.pending r.fails_with), record r { pending = [] })
