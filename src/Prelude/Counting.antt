-- ===== src/Prelude/Counting.antt =====
-- How appending and erasing change how often a value stands in a list.
use mmar.Prelude.{
  ◌+◌, ◌-◌, ◌≤◌, ◌≡◌, refl, false, List, [], ◌∷◌, ◌++◌, arith, Eq, ◌==◌, contains, count, erase,
  length, if◌then◌else◌,
}

module _ {ℓ} {A : Type ℓ} ⦃e : Eq A⦄ where
  pub count-append_one :
      (a b : A) (xs : List A)
      → count a (xs ++ b ∷ []) ≡ (if b == a then count a xs + 1 else count a xs)
  unfolding count
  count-append_one a b [] = ground arith
  count-append_one a b (x ∷ xs) = ground (arith, count-append_one a b xs)

  pub count-erase :
      (a b : A) (xs : List A)
      → count a (erase b xs) ≡ (if b == a then count a xs - 1 else count a xs)
  unfolding count erase
  count-erase a b [] = ground arith
  count-erase a b (x ∷ xs) =
      ground (arith, count-erase a b xs, e.same_iff x a, e.same_iff x b, e.same_iff b a)

  pub erase-absent : (a : A) (xs : List A) → contains xs a ≡ false → erase a xs ≡ xs
  unfolding contains erase
  erase-absent a [] h = refl
  erase-absent a (x ∷ xs) h = ground (arith, erase-absent a xs)

  pub length-erase : (a : A) (xs : List A) → length (erase a xs) ≤ length xs
  unfolding erase
  length-erase a [] = omega arith
  length-erase a (x ∷ xs) = ground (arith, length-erase a xs)
