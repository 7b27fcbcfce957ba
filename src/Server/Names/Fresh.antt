-- ===== src/Server/Names/Fresh.antt =====
-- internal/server/main.go, and internal/server/utils.go: the
-- names that the server makes up.
use mmar.Constants.{id_length}
use mmar.Prelude.Maps.{Map, lookup}
use mmar.Prelude.{
  ℕ, zero, suc, ◌+◌, ◌<◌, ◌≡◌, ap, Option-cases, inl, inr, beq_of_ne, ◌==◌, refl, false, Bytes,
  codes, [], none, some, arith, length, bytes_eq, contains,
}
use mmar.Server.Names.{
  random_chars, generate_random_id, generated_reserved, draw_subdomain, is_some,
  generate_unique_subdomain,
}

random_chars-length : (intn : ℕ → ℕ) (left i : ℕ) → length (random_chars intn left i) ≡ left
unfolding random_chars
random_chars-length intn zero i = refl
random_chars-length intn (suc left) i = omega (arith, random_chars-length intn left (i + 1))

contains-length :
    (name : Bytes) → length name ≡ id_length → contains generated_reserved name ≡ false
unfolding contains
contains-length name h = rw (
  other [] (omega arith),
  other (codes "admin") (omega arith),
  other (codes "stats") (omega arith),
)
  where
    other : (r : Bytes) → length r < id_length → (r == name) ≡ false
    other r short = beq_of_ne r name (λ e. absurd (omega (arith, ap length e)))

-- While no client is registered under the empty name, the loop ends with the first name that is
-- drawn, whichever clients there are: whether that name is taken is never looked at.
pub generate_unique_subdomain_first {ℓ} :
    {A : Type ℓ} (clients : Map Bytes A) (draws : ℕ → ℕ → ℕ)
    → lookup [] clients ≡ none
    → generate_unique_subdomain clients draws ≡ some (generate_random_id (draws 0))
unfolding generate_unique_subdomain generate_random_id draw_subdomain contains
generate_unique_subdomain_first clients draws h = rw (
  h,
  is_some,
  contains-length (random_chars (draws 0) id_length 0) (random_chars-length (draws 0) id_length 0),
)

pub length-generate_random_id : (intn : ℕ → ℕ) → length (generate_random_id intn) ≡ id_length
unfolding generate_random_id
length-generate_random_id intn = random_chars-length intn id_length 0

-- A name that the loop ends with has the length of the names that are drawn, whichever clients
-- there are.
pub length-generate_unique_subdomain {ℓ} :
    {A : Type ℓ} (clients : Map Bytes A) (draws : ℕ → ℕ → ℕ) (id : Bytes)
    → generate_unique_subdomain clients draws ≡ some id
    → length id ≡ id_length
unfolding generate_unique_subdomain draw_subdomain
length-generate_unique_subdomain clients draws id h = elim (Option-cases (lookup [] clients)) [
  | inl clear ↦ ground (
    arith,
    h,
    generate_unique_subdomain_first clients draws clear,
    length-generate_random_id (draws 0),
  )
  | inr (a, e) ↦ absurd (ground (arith, h, e))
]
