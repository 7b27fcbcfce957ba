-- ===== src/Server/RequestId.antt =====
-- internal/server/main.go and internal/server/utils.go: request ids, how one is drawn at random, and
-- the four bytes that carry one over the tunnel.
use mathlib.Core.Path.{subst}
use mmar.Prelude.Maps.{Map, lookup}
use mmar.Prelude.{
  ℕ, zero, suc, ◌+◌, ◌*◌, ◌/◌, ◌%◌, ◌^◌, ◌<◌, ◌≡◌, ◌≢◌, refl, ap, Bool, true, false, ◌||◌, Bytes,
  [], ◌∷◌, Option, none, some, arith, eqn, nat_eq, if◌then◌else◌, All,
}

-- `binary.LittleEndian`.
unfoldable pub put_uint32 : ℕ → Bytes
put_uint32 n = n % 256 ∷ n / 256 % 256 ∷ n / 65536 % 256 ∷ n / 16777216 % 256 ∷ []

unfoldable pub uint32 : Bytes → ℕ
uint32 (a ∷ b ∷ c ∷ d ∷ s) = a + b * 256 + c * 65536 + d * 16777216
uint32 _ = 0

-- `GenerateRandomUint32`, from the bytes that the reader of random numbers gave. An error of the
-- reader is ignored: the number stays 0.
unfoldable pub generate_random_uint32 : Bytes → ℕ
generate_random_uint32 (a ∷ b ∷ c ∷ d ∷ []) = a * 16777216 + b * 65536 + c * 256 + d
generate_random_uint32 _ = 0

is_some {ℓ} : {A : Type ℓ} → Option A → Bool
is_some none = false
is_some (some a) = true

-- The loop's init statement looks the id 0 up, once; the condition tests that result and the id at
-- hand. `none` stands for a loop that is still running when the fuel is used up.
draw_request_id : Bool → (ℕ → ℕ) → ℕ → ℕ → ℕ → Option ℕ
draw_request_id taken draws zero i id = none
draw_request_id taken draws (suc fuel) i id =
    let again = draw_request_id taken draws fuel (i + 1) (draws i) in
    if taken || eqn id 0 then again else some id

unfoldable pub generate_unique_request_id : Map ℕ ℕ → (ℕ → ℕ) → ℕ → Option ℕ
unfolding draw_request_id is_some
generate_unique_request_id inflight draws fuel =
    draw_request_id (is_some (lookup 0 inflight)) draws fuel 0 0

-- An id of 32 bits is read back from its four bytes.
pub uint32-put_uint32 : (n : ℕ) → n < 2 ^ 32 → uint32 (put_uint32 n) ≡ n
unfolding put_uint32 uint32
uint32-put_uint32 n h = omega arith

draw_skips :
    (draws : ℕ → ℕ) (k i fuel : ℕ)
    → k + 1 < fuel
    → ((j : ℕ) → j < k → draws (i + j) ≡ 0)
    → draws (i + k) ≢ 0
    → draw_request_id false draws fuel i 0 ≡ some (draws (i + k))
unfolding draw_request_id
draw_skips draws k i zero enough zeros h = absurd (omega arith)
draw_skips draws k i (suc zero) enough zeros h = absurd (omega arith)
draw_skips draws zero i (suc (suc fuel)) enough zeros h =
    let e : i + 0 ≡ i = omega arith in ground (arith, ap draws e)
draw_skips draws (suc k) i (suc (suc fuel)) enough zeros h =
    let e : i + suc k ≡ i + 1 + k = omega arith in
    let first : draws i ≡ 0 = subst (λ n. draws n ≡ 0) (omega arith) (zeros 0 (omega arith)) in
    rw (first, e)
      (draw_skips draws k (i + 1) (suc fuel) (omega arith)
        (λ j lt. subst (λ n. draws n ≡ 0) (omega arith) (zeros (suc j) (omega arith)))
        (λ z. h (rw e z)))

-- While the id 0 is not in flight, the loop ends with the first draw that is not 0, given fuel for
-- one more test than that takes: whether that id is in flight is never looked at.
pub generate_unique_request_id_first :
    (inflight : Map ℕ ℕ) (draws : ℕ → ℕ) (k fuel : ℕ)
    → lookup 0 inflight ≡ none
    → k + 1 < fuel
    → ((j : ℕ) → j < k → draws j ≡ 0)
    → draws k ≢ 0
    → generate_unique_request_id inflight draws fuel ≡ some (draws k)
unfolding generate_unique_request_id
generate_unique_request_id_first inflight draws k fuel clear enough zeros h =
    rw (clear, is_some)
      (subst (λ n. draw_request_id false draws fuel 0 0 ≡ some (draws n)) (omega arith)
        (draw_skips draws k 0 fuel enough
          (λ j lt. subst (λ n. draws n ≡ 0) (omega arith) (zeros j lt))
          (λ z. h (subst (λ n. draws n ≡ 0) (omega arith) z))))

draw_request_id-drawn :
    (P : ℕ → Type 0) (taken : Bool) (draws : ℕ → ℕ) (fuel i last id : ℕ)
    → ((j : ℕ) → P (draws j))
    → (last ≢ 0 → P last)
    → draw_request_id taken draws fuel i last ≡ some id
    → (id ≢ 0) × P id
unfolding draw_request_id
draw_request_id-drawn P taken draws zero i last id each so_far e = absurd (cc)
draw_request_id-drawn P true draws (suc fuel) i last id each so_far e =
    draw_request_id-drawn P true draws fuel (i + 1) (draws i) id each (λ _. each i) e
draw_request_id-drawn P false draws (suc fuel) i zero id each so_far e =
    draw_request_id-drawn P false draws fuel (i + 1) (draws i) id each (λ _. each i)
      (ground (arith, e))
draw_request_id-drawn P false draws (suc fuel) i (suc last) id each so_far e =
    let same : suc last ≡ id = ground (arith, e) in
    let nonzero : suc last ≢ 0 = λ z. absurd (omega (arith, z)) in
    subst (λ n. (n ≢ 0) × P n) same (nonzero, so_far nonzero)

generate_random_uint32-bound :
    (s : Bytes) → All (λ b. b < 256) s → generate_random_uint32 s < 2 ^ 32
unfolding generate_random_uint32
generate_random_uint32-bound [] h = omega arith
generate_random_uint32-bound (a ∷ []) h = omega arith
generate_random_uint32-bound (a ∷ b ∷ []) h = omega arith
generate_random_uint32-bound (a ∷ b ∷ c ∷ []) h = omega arith
generate_random_uint32-bound (a ∷ b ∷ c ∷ d ∷ []) (p, (q, (r, (s, _)))) = omega arith
generate_random_uint32-bound (a ∷ b ∷ c ∷ d ∷ e ∷ s) h = omega arith

-- An id that is drawn is not 0 and fits its four bytes, whether or not the reader of random numbers
-- fails.
pub generate_unique_request_id-bound :
    (inflight : Map ℕ ℕ) (reads : ℕ → Bytes) (fuel id : ℕ)
    → ((i : ℕ) → All (λ b. b < 256) (reads i))
    → generate_unique_request_id inflight (λ i. generate_random_uint32 (reads i)) fuel ≡ some id
    → (id ≢ 0) × (id < 2 ^ 32)
unfolding generate_unique_request_id
generate_unique_request_id-bound inflight reads fuel id are_bytes e =
    draw_request_id-drawn (λ n. n < 2 ^ 32) _ _ fuel 0 0 id
      (λ i. generate_random_uint32-bound (reads i) (are_bytes i)) (λ nonzero. absurd (nonzero refl))
      e
