-- ===== src/Simulation/Urls.antt =====
-- simulations/simulation_utils.go: `extractTunnelURL`, and what it finds in the lines that a client logs.
use mathlib.Core.Path.{subst}
use mmar.Prelude.{
  ℕ, ◌≡◌, ◌≢◌, refl, sym, ap, ◌∙◌, Bool, true, Bytes, codes, List, [], ◌∷◌, ◌++◌, append-nil, arith,
  All, ◌⊎◌, inl, inr, bytes_eq, eqn,
}
use mmar.Simulation.Patterns.{
  Matches, nothing, byte, last, more, find_string-Found, Matches-find_string,
}
use mmar.Simulation.{
  Item, many, find_string, host_char, digit, literal, tunnel_url_pattern, extract_tunnel_url,
}

-- One or more bytes of a class.
pub record Run (p : ℕ → Bool) (s : Bytes) : Type 0 where
  pub nonempty : s ≢ []
  pub all : All (λ c. p c ≡ true) s

-- A URL of a tunnel on localhost: a name of letters, digits and hyphens, and a port of digits.
pub record IsTunnelUrl (url : Bytes) : Type 0 where
  pub name : Bytes
  pub port : Bytes
  pub text : url ≡ codes "http://" ++ (name ++ (codes ".localhost:" ++ port))
  pub of_name : Run host_char name
  pub of_port : Run digit port

-- A match, taken apart behind its first part.
record Parts (P : Bytes → Type 0) (r : List Item) (s : Bytes) : Type 0 where
  first : Bytes
  rest : Bytes
  text : s ≡ first ++ rest
  holds : P first
  matches : Matches r rest

Matches-literal :
    (t : Bytes) (r : List Item) (s : Bytes) → Matches (literal t r) s → Parts (λ x. x ≡ t) r s
Matches-literal [] r s d = record { first = []; rest = s; text = refl; holds = refl; matches = d }
Matches-literal (a ∷ t) r s (byte c same d) =
    let q = Matches-literal t r _ d in
    record {
      first = c ∷ q.first;
      rest = q.rest;
      text = ap (◌∷◌ c) q.text;
      holds = ground (arith, q.holds);
      matches = q.matches;
    }

Matches-many :
    (p : ℕ → Bool) (r : List Item) (s : Bytes) → Matches (many p ∷ r) s → Parts (Run p) r s
Matches-many p r s (last {s = t} c accepted d) = record {
  first = c ∷ [];
  rest = t;
  text = refl;
  holds = record { nonempty = λ e. absurd (cc); all = (accepted, tt) };
  matches = d;
}
Matches-many p r s (more c accepted d) =
    let q = Matches-many p r _ d in
    record {
      first = c ∷ q.first;
      rest = q.rest;
      text = ap (◌∷◌ c) q.text;
      holds = record { nonempty = λ e. absurd (cc); all = (accepted, q.holds.all) };
      matches = q.matches;
    }

literal-Matches :
    (t : Bytes) (r : List Item) (s : Bytes) → Matches r s → Matches (literal t r) (t ++ s)
literal-Matches [] r s d = d
literal-Matches (c ∷ t) r s d = byte c (ground arith) (literal-Matches t r s d)

many-Matches :
    (p : ℕ → Bool) (r : List Item) (a s : Bytes)
    → Run p a
    → Matches r s
    → Matches (many p ∷ r) (a ++ s)
many-Matches p r [] s run d = absurd (run.nonempty refl)
many-Matches p r (c ∷ []) s run d = last c run.all.0 d
many-Matches p r (c ∷ b ∷ a) s run d =
    more c run.all.0
      (many-Matches p r (b ∷ a) s (record { nonempty = λ e. absurd (cc); all = run.all.1 }) d)

Matches-IsTunnelUrl : (url : Bytes) → Matches tunnel_url_pattern url → IsTunnelUrl url
Matches-IsTunnelUrl url d =
    let q = Matches-literal (codes "http://") _ url d in
    let n = Matches-many host_char _ q.rest q.matches in
    let l = Matches-literal (codes ".localhost:") _ n.rest n.matches in
    let d = Matches-many digit [] l.rest l.matches in
    record {
      name = n.first;
      port = d.first;
      text =
          q.text ∙ rw (q.holds, n.text, l.text, l.holds, d.text, at_end d.matches, append-nil) refl;
      of_name = n.holds;
      of_port = d.holds;
    }
  where
    at_end : {s : Bytes} → Matches [] s → s ≡ []
    at_end nothing = refl

IsTunnelUrl-Matches : (url : Bytes) → IsTunnelUrl url → Matches tunnel_url_pattern url
IsTunnelUrl-Matches url u = subst (Matches tunnel_url_pattern) (sym (u.text ∙ rw append-nil refl)) (
    literal-Matches (codes "http://") _ _ (
      many-Matches host_char _ u.name _ u.of_name (
        literal-Matches (codes ".localhost:") _ _
          (many-Matches digit [] u.port [] u.of_port nothing))))

-- In any text, either what is found is a URL of a tunnel on localhost that stands in the text, or
-- nothing is found and no such URL stands in it.
pub extract_tunnel_url_lem :
    (s : Bytes)
    → ((before : Bytes) × (rest : Bytes) × (s ≡ before ++ (extract_tunnel_url s ++ rest))
        × IsTunnelUrl (extract_tunnel_url s))
      ⊎ ((extract_tunnel_url s ≡ [])
          × ((before url rest : Bytes) → s ≡ before ++ (url ++ rest) → ¬ IsTunnelUrl url))
unfolding extract_tunnel_url
extract_tunnel_url_lem s = elim (empty_or_not (find_string tunnel_url_pattern s)) [
  | inl none ↦ inr (
    none,
    λ before url rest e u.
        Matches-find_string (eqn b'h') _ before url rest (IsTunnelUrl-Matches url u)
          (subst (λ t. find_string tunnel_url_pattern t ≡ []) e none),
  )
  | inr some_text ↦
      let q = find_string-Found tunnel_url_pattern s some_text in
      inl
        (q.before, q.rest, q.text, Matches-IsTunnelUrl (find_string tunnel_url_pattern s) q.matches)
]
  where
    empty_or_not : (t : Bytes) → (t ≡ []) ⊎ (t ≢ [])
    empty_or_not [] = inl refl
    empty_or_not (c ∷ t) = inr (λ e. absurd (cc))
