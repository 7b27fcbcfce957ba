-- ===== src/Server/Names.antt =====
-- internal/server/main.go: the names that a client may ask for, and the names
-- that the server makes up.
pub mod Valid
pub mod Fresh
use mmar.Constants.{id_charset, id_length}
use mmar.Prelude.Maps.{Map, lookup}
use mmar.Prelude.Text.{to_lower, to_lower_idem, split, join}
use mmar.Utils.{extract_subdomain}
use mmar.Prelude.{
  ℕ, zero, suc, ◌+◌, ◌≤◌, ◌<◌, ◌≡◌, ◌≢◌, ◌↔◌, refl, ap, sym, ◌∙◌, Bool, true, false, not, ◌&&◌,
  ◌||◌, Bytes, codes, List, [], ◌∷◌, ◌++◌, Option, none, some, arith, All, eqn, leb, ltb, length,
  length-append, get_elem?, bytes_eq, contains, if◌then◌else◌, Bool-cases, inl, inr, ◌⊎◌,
}

abbrev reserved_subdomains : List Bytes
reserved_subdomains = codes "admin" ∷ codes "stats" ∷ codes "www" ∷ codes "api" ∷ codes "app" ∷ []

-- A letter, a digit or a hyphen. A byte of a character outside ASCII is none of these, so the test
-- of the bytes is the test of the runes.
name_char : ℕ → Bool
name_char c =
    (leb b'a' c && leb c b'z')
    || (leb b'A' c && leb c b'Z')
    || (leb b'0' c && leb c b'9')
    || eqn c b'-'

name_chars : Bytes → Bool
unfolding name_char
name_chars [] = true
name_chars (c ∷ s) = if not (name_char c) then false else name_chars s

-- `strings.HasPrefix(name, "-")` and `strings.HasSuffix(name, "-")`.
hyphen_first : Bytes → Bool
hyphen_first [] = false
hyphen_first (c ∷ s) = eqn c b'-'

hyphen_last : Bytes → Bool
hyphen_last [] = false
hyphen_last (c ∷ []) = eqn c b'-'
hyphen_last (c ∷ d ∷ s) = hyphen_last (d ∷ s)

is_empty : Bytes → Bool
is_empty [] = true
is_empty (c ∷ s) = false

unfoldable pub is_valid_subdomain_name : Bytes → Bool
unfolding name_chars hyphen_first hyphen_last is_empty
is_valid_subdomain_name name =
    if is_empty name
    then false
    else if contains reserved_subdomains (to_lower name)
    then false
    else if ltb (length name) 1 || ltb 63 (length name)
    then false
    else if not (name_chars name)
    then false
    else if hyphen_first name || hyphen_last name
    then false
    else true

char_or_zero : Option ℕ → ℕ
char_or_zero none = 0
char_or_zero (some c) = c

-- `b[i] = ID_CHARSET[Intn(len(ID_CHARSET))]` for the positions still to fill; `intn` is what the
-- generator returns for each. A draw below the length of the set is always in range.
random_chars : (ℕ → ℕ) → ℕ → ℕ → Bytes
unfolding char_or_zero
random_chars intn zero i = []
random_chars intn (suc left) i =
    char_or_zero (get_elem? id_charset (intn i)) ∷ random_chars intn left (i + 1)

unfoldable pub generate_random_id : (ℕ → ℕ) → Bytes
unfolding random_chars
generate_random_id intn = random_chars intn id_length 0

abbrev generated_reserved : List Bytes
generated_reserved = [] ∷ codes "admin" ∷ codes "stats" ∷ []

-- The loop's init statement looks the empty name up, once; the condition tests that result and the
-- name at hand. `draws i` is what the generator gives in the i-th round. `none` stands for a loop
-- that is still running when the fuel is used up.
draw_subdomain : Bool → (ℕ → ℕ → ℕ) → ℕ → ℕ → Bytes → Option Bytes
draw_subdomain taken draws zero i name = none
draw_subdomain taken draws (suc fuel) i name =
    let again = draw_subdomain taken draws fuel (i + 1) (generate_random_id (draws i)) in
    if taken || contains generated_reserved name then again else some name

is_some {ℓ} : {A : Type ℓ} → Option A → Bool
is_some none = false
is_some (some a) = true

-- Two tests are enough: a drawn name is six characters long, and no reserved name is.
unfoldable pub generate_unique_subdomain {ℓ} :
    {A : Type ℓ} → Map Bytes A → (ℕ → ℕ → ℕ) → Option Bytes
unfolding draw_subdomain is_some
generate_unique_subdomain clients draws = draw_subdomain (is_some (lookup [] clients)) draws 2 0 []
