-- ===== src/Simulation/Patterns.antt =====
-- simulations/simulation_utils.go: what the search for a pattern finds.
use mathlib.Core.Path.{subst}
use mmar.Prelude.{
  ◌≡◌, ◌≢◌, ◌∙◌, All, false, refl, ap, true, Bytes, List, [], ◌∷◌, ◌++◌, none, some, arith, inl,
  inr, ℕ, Bool, Option-cases,
}
use mmar.Simulation.{literal, Item, one, many, match_here, find_string}

-- What a regular expression stands for.
pub data Matches : List Item → Bytes → Type 0 where
  nothing : Matches [] []
  byte :
      {p : ℕ → Bool} {r : List Item} {s : Bytes} (c : ℕ)
      → p c ≡ true
      → Matches r s
      → Matches (one p ∷ r) (c ∷ s)
  last :
      {p : ℕ → Bool} {r : List Item} {s : Bytes} (c : ℕ)
      → p c ≡ true
      → Matches r s
      → Matches (many p ∷ r) (c ∷ s)
  more :
      {p : ℕ → Bool} {r : List Item} {s : Bytes} (c : ℕ)
      → p c ≡ true
      → Matches (many p ∷ r) s
      → Matches (many p ∷ r) (c ∷ s)

-- A match at the start of a text, and what follows it.
pub record Starts (r : List Item) (s m : Bytes) : Type 0 where
  pub rest : Bytes
  pub text : s ≡ m ++ rest
  pub matches : Matches r m

pub match_here-Starts : (r : List Item) (s m : Bytes) → match_here r s ≡ some m → Starts r s m
unfolding match_here
match_here-Starts [] s m h =
    let this : [] ≡ m = cc in
    subst (Starts [] s) this (record { rest = s; text = refl; matches = nothing })
match_here-Starts (i ∷ r) [] m h = absurd (cc)
match_here-Starts (one p ∷ r) (c ∷ s) m h = elim (Option-cases (match_here r s)) [
  | inl e ↦ absurd (ground (arith, h, e))
  | inr (n, e) ↦
      let accepted : p c ≡ true = ground (arith, h, e) in
      let this : c ∷ n ≡ m = ground (arith, h, e) in
      let q = match_here-Starts r s n e in
      subst (Starts (one p ∷ r) (c ∷ s)) this
        (record { rest = q.rest; text = ap (◌∷◌ c) q.text; matches = byte c accepted q.matches })
]
match_here-Starts (many p ∷ r) (c ∷ s) m h = elim (Option-cases (match_here (many p ∷ r) s)) [
  | inl none_more ↦ elim (Option-cases (match_here r s)) [
    | inl e ↦ absurd (ground (arith, h, e, none_more))
    | inr (n, e) ↦
        let accepted : p c ≡ true = ground (arith, h, e, none_more) in
        let this : c ∷ n ≡ m = ground (arith, h, e, none_more) in
        let q = match_here-Starts r s n e in
        subst (Starts (many p ∷ r) (c ∷ s)) this
          (record { rest = q.rest; text = ap (◌∷◌ c) q.text; matches = last c accepted q.matches })
  ]
  | inr (n, e) ↦
      let accepted : p c ≡ true = ground (arith, h, e) in
      let this : c ∷ n ≡ m = ground (arith, h, e) in
      let q = match_here-Starts (many p ∷ r) s n e in
      subst (Starts (many p ∷ r) (c ∷ s)) this
        (record { rest = q.rest; text = ap (◌∷◌ c) q.text; matches = more c accepted q.matches })
]

-- Where some text matches at the start, the search there finds one.
pub Matches-match_here :
    (r : List Item) (m rest : Bytes) → Matches r m → match_here r (m ++ rest) ≢ none
unfolding match_here
Matches-match_here r m rest nothing h = cc
Matches-match_here r m rest (byte {s = s} c accepted d) h =
    Matches-match_here _ s rest d (ground (arith, h, accepted))
Matches-match_here r m rest (last {r = q} {s = s} c accepted d) h =
    Matches-match_here q s rest d (ground (arith, h, accepted))
Matches-match_here r m rest (more {s = s} c accepted d) h =
    Matches-match_here _ s rest d (ground (arith, h, accepted))

-- Where the search finds a match in a text.
pub record Found (r : List Item) (s m : Bytes) : Type 0 where
  pub before : Bytes
  pub rest : Bytes
  pub text : s ≡ before ++ (m ++ rest)
  pub matches : Matches r m

Starts-Found : {r : List Item} {s m : Bytes} → Starts r s m → Found r s m
Starts-Found q = record { before = []; rest = q.rest; text = q.text; matches = q.matches }

-- What is found stands in the text and matches.
pub find_string-Found :
    (r : List Item) (s : Bytes) → find_string r s ≢ [] → Found r s (find_string r s)
unfolding find_string
find_string-Found r [] some_text = elim (Option-cases (match_here r [])) [
  | inl e ↦ absurd (some_text (rw e refl))
  | inr (m, e) ↦ rw e (Starts-Found (match_here-Starts r [] m e))
]
find_string-Found r (c ∷ s) some_text = elim (Option-cases (match_here r (c ∷ s))) [
  | inl e ↦
      let q = find_string-Found r s (λ empty. some_text (rw e empty)) in
      rw e (record {
        before = c ∷ q.before;
        rest = q.rest;
        text = ap (◌∷◌ c) q.text;
        matches = q.matches;
      })
  | inr (m, e) ↦ rw e (Starts-Found (match_here-Starts r (c ∷ s) m e))
]

module _ (p : ℕ → Bool) (r : List Item) where
  -- A pattern that begins with a byte of a class matches no empty text.
  match_here-nonempty : (s : Bytes) → match_here (one p ∷ r) s ≢ some []
  unfolding match_here
  match_here-nonempty [] h = cc
  match_here-nonempty (c ∷ s) h = elim (Option-cases (match_here r s)) [
    | inl e ↦ ground (arith, h, e)
    | inr (m, e) ↦ ground (arith, h, e)
  ]

  -- If a text matches anywhere, something is found.
  pub Matches-find_string :
      (before m rest : Bytes)
      → Matches (one p ∷ r) m
      → find_string (one p ∷ r) (before ++ (m ++ rest)) ≢ []
  unfolding find_string
  Matches-find_string [] m rest d h = starts (m ++ rest) (Matches-match_here (one p ∷ r) m rest d) h
    where
      starts : (s : Bytes) → match_here (one p ∷ r) s ≢ none → find_string (one p ∷ r) s ≢ []
      starts [] matched empty = absurd (matched (unfold match_here in refl))
      starts (c ∷ s) matched empty = elim (Option-cases (match_here (one p ∷ r) (c ∷ s))) [
        | inl e ↦ absurd (matched e)
        | inr (x, e) ↦ absurd (match_here-nonempty (c ∷ s) (e ∙ ap some (rw e at empty)))
      ]
  Matches-find_string (c ∷ before) m rest d h =
      elim (Option-cases (match_here (one p ∷ r) (c ∷ (before ++ (m ++ rest))))) [
        | inl e ↦ Matches-find_string before m rest d (rw e at h)
        | inr (x, e) ↦
            absurd (match_here-nonempty (c ∷ (before ++ (m ++ rest))) (e ∙ ap some (rw e at h)))
      ]

  -- The search passes over a byte that the pattern cannot begin with.
  find_string-skip :
      (c : ℕ) (s : Bytes)
      → p c ≡ false
      → find_string (one p ∷ r) (c ∷ s) ≡ find_string (one p ∷ r) s
  unfolding find_string match_here
  find_string-skip c s h = rw h refl

  pub find_string_skips :
      (before s : Bytes)
      → All (λ c. p c ≡ false) before
      → find_string (one p ∷ r) (before ++ s) ≡ find_string (one p ∷ r) s
  find_string_skips [] s h = refl
  find_string_skips (c ∷ before) s h =
      find_string-skip c (before ++ s) h.0 ∙ find_string_skips before s h.1

-- A match at the start is what is found.
pub find_string_start :
    (r : List Item) (c : ℕ) (s m : Bytes)
    → match_here r (c ∷ s) ≡ some m
    → find_string r (c ∷ s) ≡ m
unfolding find_string
find_string_start r c s m h = rw h refl

-- A repetition takes all the bytes of its class, if the rest matches behind them.
pub match_here-many :
    (p : ℕ → Bool) (r : List Item) (a : ℕ) (more_bytes : Bytes) (c : ℕ) (s m : Bytes)
    → p a ≡ true
    → All (λ x. p x ≡ true) more_bytes
    → p c ≡ false
    → match_here r (c ∷ s) ≡ some m
    → match_here (many p ∷ r) (a ∷ (more_bytes ++ c ∷ s)) ≡ some (a ∷ (more_bytes ++ m))
unfolding match_here
match_here-many p r a [] c s m first rest stops h = ground (arith, first, stops, h)
match_here-many p r a (b ∷ more_bytes) c s m first rest stops h =
    ground (arith, first, match_here-many p r b more_bytes c s m rest.0 rest.1 stops h)

pub match_here-literal :
    (t : Bytes) (r : List Item) (s m : Bytes)
    → match_here r s ≡ some m
    → match_here (literal t r) (t ++ s) ≡ some (t ++ m)
unfolding match_here
match_here-literal [] r s m h = h
match_here-literal (c ∷ t) r s m h = ground (arith, match_here-literal t r s m h)
