-- ===== src/Dns/Labels.antt =====
-- simulations/dnsserver/main.go: what the loop over the labels of a name reads.
use mmar.Dns.{Slice, index, slice, copy, AtLabel, name_ends, label_copied, at_label, read_name}
use mmar.Prelude.{
  ℕ, zero, suc, ◌+◌, ◌≤◌, ◌<◌, ◌≡◌, refl, ◌∙◌, Bytes, List, [], ◌∷◌, ◌++◌, append_assoc, Option,
  none, some, arith, length, length-append, drop, get_elem?, take-append_length, ◌⊎◌, inl, inr, All,
  nat_eq,
}

at_label-cases :
    (o : Option AtLabel)
    → (o ≡ none)
      ⊎ (o ≡ some name_ends)
      ⊎ ((label : ℕ) × (copied : Bytes) × (o ≡ some (label_copied label copied)))
at_label-cases none = inl refl
at_label-cases (some name_ends) = inr (inl refl)
at_label-cases (some (label_copied label copied)) = inr (inr (label, copied, refl))

-- Rounds beyond those that pass the bound change nothing: the loop ends by its own test.
pub read_name_enough :
    (fuel more : ℕ) (q : Slice) (n i : ℕ)
    → n ≤ fuel + i
    → read_name (fuel + more) q n i ≡ read_name fuel q n i
unfolding read_name
read_name_enough zero zero q n i h = refl
read_name_enough zero (suc more) q n i h = ground (arith, h)
read_name_enough (suc fuel) more q n i h =
    let one : suc fuel + more ≡ suc (fuel + more) = omega arith in
    rw one (elim (at_label-cases (at_label q i)) [
      | inl e ↦ ground (arith, e)
      | inr (inl e) ↦ ground (arith, e)
      | inr (inr (label, copied, e)) ↦
          let rest = read_name_enough fuel more q n (i + label + 1) (omega (arith, h)) in
          ground (arith, e, rest)
    ])

-- A label as a query has it: not empty, and shorter than a byte can say.
abbrev pub IsLabel : Bytes → Type 0
IsLabel [] = ⊥
IsLabel (c ∷ s) = length (c ∷ s) < 256

unfoldable pub labels_text : List Bytes → Bytes
labels_text [] = []
labels_text (l ∷ ls) = (length l ∷ l) ++ labels_text ls

get_elem?-drop : (xs ys : Bytes) (i b : ℕ) → drop i xs ≡ b ∷ ys → get_elem? xs i ≡ some b
get_elem?-drop [] ys zero b h = absurd (cc)
get_elem?-drop [] ys (suc i) b h = absurd (cc)
get_elem?-drop (x ∷ xs) ys zero b h = ground (arith, h)
get_elem?-drop (x ∷ xs) ys (suc i) b h = get_elem?-drop xs ys i b h

pub drop-step : (xs ys : Bytes) (i b : ℕ) → drop i xs ≡ b ∷ ys → drop (suc i) xs ≡ ys
drop-step [] ys zero b h = absurd (cc)
drop-step [] ys (suc i) b h = absurd (cc)
drop-step (x ∷ xs) ys zero b h = ground (arith, h)
drop-step (x ∷ xs) ys (suc i) b h = drop-step xs ys i b h

pub drop-append : (xs l ys : Bytes) (i : ℕ) → drop i xs ≡ l ++ ys → drop (i + length l) xs ≡ ys
drop-append xs [] ys i h = let here : i + 0 ≡ i = omega arith in rw here h
drop-append xs (c ∷ l) ys i h =
    let later : i + suc (length l) ≡ suc i + length l = omega arith in
    rw later (drop-append xs l ys (suc i) (drop-step xs (l ++ ys) i c h))

-- What is left behind an index bounds it.
drop-bound : (xs ys : Bytes) (i b : ℕ) → drop i xs ≡ b ∷ ys → i + 1 + length ys ≡ length xs
drop-bound [] ys zero b h = absurd (cc)
drop-bound [] ys (suc i) b h = absurd (cc)
drop-bound (x ∷ xs) ys zero b h = ground (arith, h)
drop-bound (x ∷ xs) ys (suc i) b h = ground (arith, drop-bound xs ys i b h)

pub index-drop :
    (q : Slice) (ys : Bytes) (i b : ℕ) → i < q.size → drop i q.bytes ≡ b ∷ ys → index q i ≡ some b
unfolding index
index-drop q ys i b h e = ground (arith, h, get_elem?-drop q.bytes ys i b e)

copy-drop :
    (q : Slice) (l ys : Bytes) (i : ℕ)
    → i + length l ≤ q.size
    → drop i q.bytes ≡ l ++ ys
    → copy q i (length l) ≡ some l
unfolding copy
copy-drop q [] ys i h e = refl
copy-drop q (b ∷ l) ys i h e = ground (
  arith,
  index-drop q (l ++ ys) i b (omega (arith, h)) e,
  copy-drop q l ys (suc i) (omega (arith, h)) (drop-step q.bytes (l ++ ys) i b e),
)

pub slice-drop :
    (q : Slice) (l ys : Bytes) (i : ℕ)
    → i + length l ≤ length q.bytes
    → drop i q.bytes ≡ l ++ ys
    → slice q i (length l) ≡ some l
unfolding slice
slice-drop q l ys i h e = rw e (ground (arith, h, take-append_length l ys))

at_label_copied :
    (q : Slice) (l ys : Bytes) (i : ℕ)
    → IsLabel l
    → i + length l < q.size
    → drop i q.bytes ≡ (length l ∷ l) ++ ys
    → at_label q i ≡ some (label_copied (length l) (length l ∷ l))
unfolding at_label
at_label_copied q [] ys i label h e = absurd label
at_label_copied q (c ∷ l) ys i label h e =
    let bound = drop-bound q.bytes (c ∷ l ++ ys) i (length (c ∷ l)) e in
    ground (
      arith,
      slice-drop q (length (c ∷ l) ∷ []) (c ∷ l ++ ys) i (omega (arith, bound)) e,
      index-drop q (c ∷ l ++ ys) i (length (c ∷ l)) (omega (arith, h)) e,
      copy-drop q (length (c ∷ l) ∷ c ∷ l) ys i (omega (arith, h)) e,
    )

at_label_end :
    (q : Slice) (ys : Bytes) (i : ℕ) → drop i q.bytes ≡ 0 ∷ ys → at_label q i ≡ some name_ends
unfolding at_label
at_label_end q ys i e =
    let bound = drop-bound q.bytes ys i 0 e in
    ground (arith, slice-drop q (0 ∷ []) ys i (omega (arith, bound)) e)

-- The loop reads the labels up to the end of the name.
pub read_name-labels :
    (fuel : ℕ) (q : Slice) (n i : ℕ) (ls : List Bytes) (ys : Bytes)
    → All IsLabel ls
    → i + length (labels_text ls) < q.size
    → i + length (labels_text ls) < n
    → length (labels_text ls) < fuel
    → drop i q.bytes ≡ labels_text ls ++ 0 ∷ ys
    → read_name fuel q n i ≡ some (labels_text ls, i + length (labels_text ls))
unfolding read_name labels_text
read_name-labels zero q n i ls ys labels h hn hf e = absurd (omega (arith, hf))
read_name-labels (suc fuel) q n i [] ys labels h hn hf e = ground (arith, hn, at_label_end q ys i e)
read_name-labels (suc fuel) q n i (l ∷ ls) ys labels h hn hf e =
    let size = length-append l (labels_text ls) in
    let split = e ∙ append_assoc (length l ∷ l) (labels_text ls) (0 ∷ ys) in
    let this =
      at_label_copied q l (labels_text ls ++ 0 ∷ ys) i labels.0 (omega (arith, h, size)) split in
    let next : drop (i + length l + 1) q.bytes ≡ labels_text ls ++ 0 ∷ ys =
      let past : i + length l + 1 ≡ i + suc (length l) = omega arith in
      rw past (drop-append q.bytes (length l ∷ l) (labels_text ls ++ 0 ∷ ys) i split) in
    let rest =
      read_name-labels fuel q n (i + length l + 1) ls ys labels.1 (omega (arith, h, size))
        (omega (arith, hn, size)) (omega (arith, hf, size)) next in
    ground (arith, this, rest, hn, size)
