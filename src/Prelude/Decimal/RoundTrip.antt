-- ===== src/Prelude/Decimal/RoundTrip.antt =====
-- `Atoi` reads back what `Itoa` wrote, and what it wrote has no line break in it.
use mmar.Prelude.{
  ℕ, zero, suc, ◌+◌, ◌/◌, ◌%◌, ◌^◌, ◌≤◌, ◌<◌, ◌≡◌, ◌∙◌, refl, true, false, ◌≢◌, Bytes, [], ◌∷◌,
  arith, All, ltb, Bool-cases, inl, inr,
}
use mathlib.Core.Path.{subst}
use mmar.Prelude.Io.{ok}
use mmar.Prelude.Decimal.{pos, digits, itoa, scan_digits, parse_uint, signed, atoi}

abbrev pub IsDigit : ℕ → Type 0
IsDigit c = (b'0' ≤ c) × (c ≤ b'9')

digits-IsDigit : (f n : ℕ) (out : Bytes) → All IsDigit out → All IsDigit (digits f n out)
unfolding digits
digits-IsDigit zero n out h = h
digits-IsDigit (suc f) n out h =
    ground
      (arith, digits-IsDigit f (n / 10) ((b'0' + n % 10) ∷ out) ((omega arith, omega arith), h))

-- Reading the last digit of `n` behind the digits before it gives `n`.
scan_last :
    (n : ℕ) (out : Bytes)
    → n < 2 ^ 63
    → scan_digits ((b'0' + n % 10) ∷ out) (n / 10) ≡ scan_digits out n
unfolding scan_digits
scan_last n out fits = ground arith

scan-digits :
    (f n : ℕ) (out : Bytes)
    → n < f
    → n < 2 ^ 63
    → scan_digits (digits f n out) 0 ≡ scan_digits out n
unfolding digits
scan-digits zero n out h fits = absurd (omega arith)
scan-digits (suc f) n out h fits = elim (Bool-cases (ltb n 10)) [
  | inl small ↦ rw small (
      subst (λ q. scan_digits ((b'0' + n % 10) ∷ out) q ≡ scan_digits out n) (quotient small)
        (scan_last n out fits))
  | inr big ↦ rw big (
      scan-digits f (n / 10) ((b'0' + n % 10) ∷ out) (smaller big) (omega arith)
      ∙ scan_last n out fits)
]
  where
    quotient : ltb n 10 ≡ true → n / 10 ≡ 0
    quotient e = ground arith

    smaller : ltb n 10 ≡ false → n / 10 < f
    smaller e = ground arith

pub itoa-IsDigit : (n : ℕ) → All IsDigit (itoa n)
unfolding itoa
itoa-IsDigit n = digits-IsDigit (suc n) n [] tt

digits-ne-nil : (f n : ℕ) (out : Bytes) → 0 < f → digits f n out ≢ []
unfolding digits
digits-ne-nil zero n out h = absurd (omega arith)
digits-ne-nil (suc zero) n out h = ground arith
digits-ne-nil (suc (suc f)) n out h =
    ground (arith, digits-ne-nil (suc f) (n / 10) ((b'0' + n % 10) ∷ out))

atoi_unsigned :
    (s : Bytes) (n : ℕ)
    → s ≢ []
    → All IsDigit s
    → n < 2 ^ 63
    → scan_digits s 0 ≡ ok n
    → atoi s ≡ ok (pos n)
unfolding atoi signed parse_uint
atoi_unsigned [] n h d fits e = absurd (h refl)
atoi_unsigned (c ∷ s) n h d fits e = ground arith

pub atoi-itoa : (n : ℕ) → n < 2 ^ 63 → atoi (itoa n) ≡ ok (pos n)
atoi-itoa n fits = atoi_unsigned (itoa n) n (itoa-ne-nil) (itoa-IsDigit n) fits scanned
  where
    itoa-ne-nil : itoa n ≢ []
    itoa-ne-nil = unfold itoa in digits-ne-nil (suc n) n [] (omega arith)

    scanned : scan_digits (itoa n) 0 ≡ ok n
    scanned = unfold itoa scan_digits in scan-digits (suc n) n [] (omega arith) fits
