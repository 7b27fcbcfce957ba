-- ===== src/Prelude/Decimal.antt =====
-- Go's `strconv.Itoa` of a length, and `strconv.Atoi` on a 64-bit platform.
pub mod RoundTrip
use mmar.Prelude.{
  ℕ, zero, suc, ◌+◌, ◌-◌, ◌*◌, ◌/◌, ◌%◌, ◌^◌, ◌≡◌, refl, Bool, true, false, ◌||◌, Bytes, codes, [],
  ◌∷◌, eqn, ltb, if◌then◌else◌,
}
use mmar.Prelude.Io.{Error, Outcome, ok, err, panic, syntax, range}

-- A Go `int`; `negsuc n` is -(n + 1).
pub data ℤ : Type 0 where
  pos : ℕ → ℤ
  negsuc : ℕ → ℤ

-- One digit in each round; a number has fewer digits than one more than its value.
unfoldable pub digits : ℕ → ℕ → Bytes → Bytes
digits zero n out = out
digits (suc f) n out =
    let d = b'0' + n % 10 in
    let more = digits f (n / 10) (d ∷ out) in if ltb n 10 then d ∷ out else more

unfoldable pub itoa : ℕ → Bytes
unfolding digits
itoa n = digits (suc n) n []

-- `strconv.ParseUint(s, 10, 64)` behind its first digit.
unfoldable pub scan_digits : Bytes → ℕ → Outcome ℕ
scan_digits [] n = ok n
scan_digits (c ∷ s) n =
    let m = n * 10 + (c - b'0') in
    if ltb c b'0' || ltb b'9' c
    then err syntax
    else if ltb m (2 ^ 64)
    then scan_digits s m
    else err range

unfoldable pub parse_uint : Bytes → Outcome ℕ
unfolding scan_digits
parse_uint [] = err syntax
parse_uint (c ∷ s) = scan_digits (c ∷ s) 0

negate : ℕ → ℤ
negate zero = pos 0
negate (suc n) = negsuc n

-- The range of an `int64`.
signed : Bool → Outcome ℕ → Outcome ℤ
unfolding negate
signed neg (err e) = err e
signed neg panic = panic
signed true (ok n) = if ltb (2 ^ 63) n then err range else ok (negate n)
signed false (ok n) = if ltb n (2 ^ 63) then ok (pos n) else err range

unfoldable pub atoi : Bytes → Outcome ℤ
unfolding signed parse_uint
atoi [] = err syntax
atoi (c ∷ s) =
    if eqn c b'-'
    then signed true (parse_uint s)
    else if eqn c b'+'
    then signed false (parse_uint s)
    else signed false (parse_uint (c ∷ s))

itoa_test : itoa 1234 ≡ codes "1234"
unfolding itoa
itoa_test = refl

atoi_test : atoi (codes "-12") ≡ ok (negsuc 11)
unfolding atoi
atoi_test = refl
