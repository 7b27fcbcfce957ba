-- ===== src/Auth/Limits.antt =====
-- internal/auth/main.go: how the tunnels under a token are counted.
use mmar.Auth.{
  AuthManager, check_tunnel_limit, add_tunnel, remove_tunnel, get_token_limit, tunnels_of,
  limit_or_zero, reaches,
}
use mathlib.Core.Path.{subst}
use mmar.Prelude.Decimal.{ℤ, pos, negsuc}
use mmar.Prelude.Maps.{lookup, lookup-insert}
use mmar.Prelude.{
  ℕ, ◌+◌, ◌≤◌, ◌≡◌, false, Bytes, List, [], ◌∷◌, ◌++◌, arith, bytes_eq, ◌==◌, length, length-append,
  erase, count, eq_refl, eq_of_beq, if◌then◌else◌, Bool-cases, inl, inr,
}

-- An addition appends to the token's own list and leaves the others alone.
pub tunnels_of-add :
    (am : AuthManager) (token id other : Bytes)
    → tunnels_of (add_tunnel am token id) other
      ≡ (if token == other then tunnels_of am token ++ id ∷ [] else tunnels_of am other)
unfolding add_tunnel
tunnels_of-add am token id other =
    ground (arith, lookup-insert token other (tunnels_of am token ++ id ∷ []) am.tunnels_per_key)

-- A removal takes the first copy out of the token's own list.
pub tunnels_of-remove :
    (am : AuthManager) (token id other : Bytes)
    → tunnels_of (remove_tunnel am token id) other
      ≡ (if token == other then erase id (tunnels_of am token) else tunnels_of am other)
unfolding remove_tunnel erase
tunnels_of-remove am token id other = ground (
  arith,
  bytes_eq.same_iff token other,
  lookup-insert token other (erase id (tunnels_of am token)) am.tunnels_per_key,
)

-- No valid token has more tunnels than its limit; a token that is not listed has none.
abbrev pub AtMost : ℕ → ℤ → Type 0
AtMost n (pos limit) = n ≤ limit
AtMost n (negsuc limit) = n ≤ 0

abbrev pub WithinLimits : AuthManager → Type 0
WithinLimits am = (token : Bytes) → AtMost (length (tunnels_of am token)) (get_token_limit am token)

reaches-AtMost : (n : ℕ) (limit : ℤ) → reaches n limit ≡ false → AtMost (n + 1) limit
reaches-AtMost n (pos limit) h = ground arith
reaches-AtMost n (negsuc limit) h = absurd (ground arith)

-- A tunnel that is added under a token that the check of the limit lets pass keeps every token
-- within its limit, if all were before.
pub add_tunnel-WithinLimits :
    (am : AuthManager) (token id : Bytes)
    → check_tunnel_limit am token ≡ false
    → WithinLimits am
    → WithinLimits (add_tunnel am token id)
unfolding check_tunnel_limit get_token_limit add_tunnel
add_tunnel-WithinLimits am token id room w other = elim (Bool-cases (token == other)) [
  | inl same ↦
      let e = eq_of_beq token other same in
      rw (tunnels_of-add, same, length-append)
        (subst
          (λ t. AtMost (length (tunnels_of am token) + 1) (limit_or_zero (lookup t am.api_keys))) e
          (reaches-AtMost _ _ room))
  | inr differs ↦ rw (tunnels_of-add, differs) (w other)
]

length-erase : (id : Bytes) (ids : List Bytes) → length (erase id ids) ≤ length ids
unfolding erase
length-erase id [] = omega arith
length-erase id (x ∷ ids) = ground (arith, length-erase id ids)

AtMost-mono : (m n : ℕ) (limit : ℤ) → m ≤ n → AtMost n limit → AtMost m limit
AtMost-mono m n (pos limit) h k = omega arith
AtMost-mono m n (negsuc limit) h k = omega arith

get_token_limit-remove :
    (am : AuthManager) (token id other : Bytes)
    → get_token_limit (remove_tunnel am token id) other ≡ get_token_limit am other
unfolding remove_tunnel get_token_limit
get_token_limit-remove am token id other = ground arith

-- Taking a tunnel out keeps every token within its limit.
pub remove_tunnel-WithinLimits :
    (am : AuthManager) (token id : Bytes)
    → WithinLimits am
    → WithinLimits (remove_tunnel am token id)
remove_tunnel-WithinLimits am token id w other =
    rw (get_token_limit-remove am token id other, tunnels_of-remove)
      (elim (Bool-cases (token == other)) [
        | inl same ↦
            rw (same, eq_of_beq token other same)
              (AtMost-mono _ _ _ (length-erase id (tunnels_of am other)) (w other))
        | inr differs ↦ rw differs (w other)
      ])

erase-append_fresh :
    (id : Bytes) (ids : List Bytes) → count id ids ≡ 0 → erase id (ids ++ id ∷ []) ≡ ids
unfolding erase count
erase-append_fresh id [] h = ground (arith, eq_refl id)
erase-append_fresh id (x ∷ ids) h = ground (arith, erase-append_fresh id ids)

-- Taking out a tunnel that was just added under a fresh name gives back what every token had.
pub remove_tunnel-add_tunnel :
    (am : AuthManager) (token id other : Bytes)
    → count id (tunnels_of am token) ≡ 0
    → tunnels_of (remove_tunnel (add_tunnel am token id) token id) other ≡ tunnels_of am other
remove_tunnel-add_tunnel am token id other fresh = ground (
  arith,
  tunnels_of-remove (add_tunnel am token id) token id other,
  tunnels_of-add am token id token,
  tunnels_of-add am token id other,
  erase-append_fresh id (tunnels_of am token),
  eq_refl token,
  bytes_eq.same_iff token other,
)
