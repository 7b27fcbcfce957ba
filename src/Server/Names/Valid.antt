-- ===== src/Server/Names/Valid.antt =====
-- internal/server/main.go: the test of a custom name decides what its error text
-- promises, and what becomes of a name with upper-case letters.
use mmar.Prelude.Text.{to_lower, to_lower_idem}
use mmar.Prelude.{
  ℕ, ◌≤◌, ◌≡◌, ◌≢◌, ◌↔◌, refl, ap, sym, ◌∙◌, true, false, Bytes, [], ◌∷◌, ◌++◌, arith, All, eqn,
  length, bytes_eq, contains, Bool-cases, inl, inr, ◌⊎◌,
}
use mmar.Server.Names.{
  reserved_subdomains, name_char, name_chars, hyphen_last, is_valid_subdomain_name,
}
use mmar.Utils.{extract_subdomain}

abbrev IsNameChar : ℕ → Type 0
IsNameChar c =
    (((b'a' ≤ c) × (c ≤ b'z')) ⊎ ((b'A' ≤ c) × (c ≤ b'Z')))
    ⊎ (((b'0' ≤ c) × (c ≤ b'9')) ⊎ (c ≡ b'-'))

-- What a name that a client asks for must be.
pub record IsSubdomainName (name : Bytes) : Type 0 where
  pub size : (1 ≤ length name) × (length name ≤ 63)
  pub chars : All IsNameChar name
  pub no_hyphen_first : (s : Bytes) → name ≢ b'-' ∷ s
  pub no_hyphen_last : (s : Bytes) → name ≢ s ++ b'-' ∷ []
  pub not_reserved : contains reserved_subdomains (to_lower name) ≡ false

name_char-true : (c : ℕ) → name_char c ≡ true → IsNameChar c
unfolding name_char
name_char-true c h = ground arith

IsNameChar-name_char : (c : ℕ) → IsNameChar c → name_char c ≡ true
unfolding name_char
IsNameChar-name_char c h = ground arith

name_chars-All : (s : Bytes) → name_chars s ≡ true → All IsNameChar s
unfolding name_chars
name_chars-All [] h = tt
name_chars-All (c ∷ s) h = (name_char-true c (ground arith), name_chars-All s (ground arith))

All-name_chars : (s : Bytes) → All IsNameChar s → name_chars s ≡ true
unfolding name_chars
All-name_chars [] h = refl
All-name_chars (c ∷ s) h = rw (IsNameChar-name_char c h.0, All-name_chars s h.1)

hyphen_last-append : (s : Bytes) → hyphen_last (s ++ b'-' ∷ []) ≡ true
unfolding hyphen_last
hyphen_last-append [] = refl
hyphen_last-append (c ∷ []) = refl
hyphen_last-append (c ∷ d ∷ s) = hyphen_last-append (d ∷ s)

-- A name that ends in a hyphen, taken apart.
hyphen_last-split : (s : Bytes) → hyphen_last s ≡ true → (t : Bytes) × (s ≡ t ++ b'-' ∷ [])
unfolding hyphen_last
hyphen_last-split [] h = absurd (ground arith)
hyphen_last-split (c ∷ []) h = ([], ground arith)
hyphen_last-split (c ∷ d ∷ s) h = let (t, e) = hyphen_last-split (d ∷ s) h in (c ∷ t, ap (◌∷◌ c) e)

-- The test accepts exactly the names of 1 to 63 letters, digits and hyphens that neither begin nor
-- end with a hyphen and that are no reserved name in any case of letters.
pub is_valid_subdomain_name_iff :
    (name : Bytes) → (is_valid_subdomain_name name ≡ true) ↔ IsSubdomainName name
unfolding is_valid_subdomain_name
is_valid_subdomain_name_iff [] = (λ h. absurd (ground arith), λ v. absurd (omega (arith, v.size.0)))
is_valid_subdomain_name_iff (c ∷ name) = (accepted, refused)
  where
    accepted : is_valid_subdomain_name (c ∷ name) ≡ true → IsSubdomainName (c ∷ name)
    accepted h = record {
      size = (ground arith, ground arith);
      chars = name_chars-All (c ∷ name) (ground arith);
      no_hyphen_first = λ s e. absurd (ground arith);
      no_hyphen_last = λ s e. absurd (ground (arith, ap hyphen_last e ∙ hyphen_last-append s));
      not_reserved = ground arith;
    }

    refused : IsSubdomainName (c ∷ name) → is_valid_subdomain_name (c ∷ name) ≡ true
    refused v = elim (Bool-cases (hyphen_last (c ∷ name))) [
      | inl ends ↦ let (t, e) = hyphen_last-split (c ∷ name) ends in absurd (v.no_hyphen_last t e)
      | inr fine ↦
          ground (arith, v.not_reserved, All-name_chars (c ∷ name) v.chars, first, v.size.1)
    ]
      where
        first : eqn c b'-' ≡ false
        first = elim (Bool-cases (eqn c b'-')) [
          | inl e ↦ absurd (v.no_hyphen_first name (ground arith))
          | inr e ↦ e
        ]

to_lower-extract_subdomain :
    (host : Bytes) → to_lower (extract_subdomain host) ≡ extract_subdomain host
unfolding extract_subdomain
to_lower-extract_subdomain host = to_lower_idem _

-- A name that lower-casing changes passes the test when its characters do, but no host reaches it:
-- requests are looked up under the lower-case name.
pub upper_case_unreachable :
    (name host : Bytes) → to_lower name ≢ name → extract_subdomain host ≢ name
upper_case_unreachable name host upper e =
    upper (ap to_lower (sym e) ∙ to_lower-extract_subdomain host ∙ e)
