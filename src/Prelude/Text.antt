-- ===== src/Prelude/Text.antt =====
-- What the program uses of Go's `strings`: `Split` and `Join` at a separator of one byte, and
-- `ToLower`, which is modelled on ASCII; other bytes are left as they are.
use mmar.Prelude.{
  ℕ, ◌+◌, ◌≡◌, ◌≢◌, contains, nat_eq, false, refl, ap, ◌∙◌, ◌&&◌, Bytes, List, [], ◌∷◌, ◌++◌, arith,
  All, eqn, leb, if◌then◌else◌, inl, inr, Bool-cases,
}

cons_head : ℕ → List Bytes → List Bytes
cons_head c [] = (c ∷ []) ∷ []
cons_head c (p ∷ ps) = (c ∷ p) ∷ ps

-- There is always at least one part.
unfoldable pub split : ℕ → Bytes → List Bytes
unfolding cons_head
split sep [] = [] ∷ []
split sep (c ∷ s) = let parts = split sep s in if eqn c sep then [] ∷ parts else cons_head c parts

unfoldable pub join : ℕ → List Bytes → Bytes
join sep [] = []
join sep (p ∷ []) = p
join sep (p ∷ q ∷ ps) = p ++ sep ∷ join sep (q ∷ ps)

lower : ℕ → ℕ
lower c = if leb b'A' c && leb c b'Z' then c + 32 else c

unfoldable pub to_lower : Bytes → Bytes
unfolding lower
to_lower [] = []
to_lower (c ∷ s) = lower c ∷ to_lower s

-- A text without a byte.
abbrev pub Lacks : ℕ → Bytes → Type 0
Lacks c = All (λ x. x ≢ c)

pub contains-Lacks : (c : ℕ) (s : Bytes) → contains s c ≡ false → Lacks c s
unfolding contains
contains-Lacks c [] h = tt
contains-Lacks c (x ∷ s) h =
    (λ e. absurd (ground (arith, h, e)), contains-Lacks c s (ground (arith, h)))

pub append-Lacks : (c : ℕ) (s t : Bytes) → Lacks c s → Lacks c t → Lacks c (s ++ t)
append-Lacks c [] t h k = k
append-Lacks c (x ∷ s) t h k = (h.0, append-Lacks c s t h.1 k)

-- A part without the separator, and what follows.
pub split-part :
    (sep : ℕ) (p rest : Bytes) → Lacks sep p → split sep (p ++ sep ∷ rest) ≡ p ∷ split sep rest
unfolding split
split-part sep [] rest h = ground arith
split-part sep (c ∷ p) rest h = ground (arith, split-part sep p rest h.1)

pub split_last : (sep : ℕ) (p : Bytes) → Lacks sep p → split sep p ≡ p ∷ []
unfolding split
split_last sep [] h = refl
split_last sep (c ∷ p) h = ground (arith, split_last sep p h.1)

-- Parts that lack the separator come back.
pub split-join :
    (sep : ℕ) (p : Bytes) (ps : List Bytes)
    → All (Lacks sep) (p ∷ ps)
    → split sep (join sep (p ∷ ps)) ≡ p ∷ ps
unfolding join
split-join sep p [] h = split_last sep p h.0
split-join sep p (q ∷ ps) h =
    split-part sep p (join sep (q ∷ ps)) h.0 ∙ ap (◌∷◌ p) (split-join sep q ps h.1)

pub to_lower_idem : (s : Bytes) → to_lower (to_lower s) ≡ to_lower s
unfolding to_lower
to_lower_idem [] = refl
to_lower_idem (c ∷ s) = ground (arith, to_lower_idem s)

module _ (b : ℕ) where
  cons_head-Lacks :
      (c : ℕ) (parts : List Bytes) → c ≢ b → All (Lacks b) parts → All (Lacks b) (cons_head c parts)
  unfolding cons_head
  cons_head-Lacks c [] h f = ((h, tt), tt)
  cons_head-Lacks c (p ∷ parts) h f = ((h, f.0), f.1)

  -- The parts of a text lack what the text lacks.
  pub split-Lacks : (sep : ℕ) (s : Bytes) → Lacks b s → All (Lacks b) (split sep s)
  unfolding split
  split-Lacks sep [] h = (tt, tt)
  split-Lacks sep (c ∷ s) h = elim (Bool-cases (eqn c sep)) [
    | inl same ↦ rw same (tt, split-Lacks sep s h.1)
    | inr other ↦ rw other (cons_head-Lacks c (split sep s) h.0 (split-Lacks sep s h.1))
  ]
