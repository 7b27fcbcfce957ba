-- ===== src/Server/Abstract/Bags.antt =====
-- internal/server/main.go: bags of names, and the lists that the tables keep of them.
use mmar.Prelude.Counting.{count-append_one, count-erase}
use mmar.Prelude.{
  ◌-◌, ◌≤◌, ◌≡◌, refl, Bytes, List, [], ◌∷◌, ◌++◌, arith, count, eqn, erase, length, length-append,
  if◌then◌else◌, bytes_eq,
}
use mmar.Server.Abstract.{Bag, empty_bag, put_in, take_out}

-- The list has the names of the bag, in some order.
pub record Lists (b : Bag) (ids : List Bytes) : Type 0 where
  pub size : b.size ≡ length ids
  pub times : (id : Bytes) → b.times id ≡ count id ids

count_le : (id : Bytes) (ids : List Bytes) → count id ids ≤ length ids
unfolding count
count_le id [] = omega arith
count_le id (x ∷ ids) = ground (arith, count_le id ids)

length-erase :
    (id : Bytes) (ids : List Bytes)
    → length (erase id ids) ≡ (if eqn (count id ids) 0 then length ids else length ids - 1)
unfolding count erase
length-erase id [] = refl
length-erase id (x ∷ ids) = ground (arith, length-erase id ids, count_le id ids)

pub empty-Lists : Lists empty_bag []
unfolding count
empty-Lists = record { size = refl; times = λ id. refl }

pub append-Lists :
    (id : Bytes) {b : Bag} {ids : List Bytes} → Lists b ids → Lists (put_in id b) (ids ++ id ∷ [])
append-Lists id {b} {ids} p = record {
  size = ground (arith, length-append ids (id ∷ []), p.size);
  times = λ x. ground (arith, count-append_one x id ids, p.times x);
}

pub erase-Lists :
    (id : Bytes) {b : Bag} {ids : List Bytes} → Lists b ids → Lists (take_out id b) (erase id ids)
erase-Lists id {b} {ids} p = record {
  size = ground (arith, length-erase id ids, p.size, p.times id);
  times = λ x. ground (arith, count-erase x id ids, p.times x);
}
