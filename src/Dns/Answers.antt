-- ===== src/Dns/Answers.antt =====
-- simulations/dnsserver/main.go: what the DNS server of the simulations answers.
use mmar.Dns.{Slice, index, slice, tail_slice, read_name, whole, build_response}
use mmar.Prelude.{
  ℕ, suc, ◌+◌, ◌-◌, ◌<◌, ◌≡◌, refl, ap, Bytes, List, [], ◌∷◌, ◌++◌, append_assoc, some, arith,
  length, length-append, drop, All, nat_eq,
}
use mmar.Dns.Labels.{
  IsLabel, labels_text, drop-step, drop-append, index-drop, slice-drop, read_name-labels,
}

-- A query: its header as six pairs of bytes, the labels of its name, its type and its class, and
-- what follows.
pub record Query : Type 0 where
  pub id : ℕ × ℕ
  pub flags : ℕ × ℕ
  pub questions : ℕ × ℕ
  pub answers : ℕ × ℕ
  pub authorities : ℕ × ℕ
  pub additionals : ℕ × ℕ
  pub labels : List Bytes
  pub type : ℕ × ℕ
  pub class : ℕ × ℕ
  pub extra : Bytes

abbrev pub pair : ℕ × ℕ → Bytes → Bytes
pair (a, b) rest = a ∷ b ∷ rest

abbrev pub question : Query → Bytes → Bytes
question x rest = labels_text x.labels ++ 0 ∷ pair x.type (pair x.class rest)

abbrev pub query_text : Query → Bytes
query_text x = pair x.id (
    pair x.flags (
      pair x.questions
        (pair x.answers (pair x.authorities (pair x.additionals (question x x.extra))))))

-- The answer: one record, for the name at the offset 12, with a TTL of an hour and the address ::1.
abbrev pub answer_text : Query → Bytes
answer_text x = pair x.id (
    128
    ∷ 0
    ∷ pair x.questions (
        0
        ∷ 1
        ∷ pair x.authorities (
            0
            ∷ 0
            ∷ question x (
                192
                ∷ 12
                ∷ pair x.type (
                    pair x.class (
                      0 ∷ 0 ∷ 14 ∷ 16 ∷ 0 ∷ 16 ∷ 0 ∷ 0 ∷ 0 ∷ 0 ∷ 0 ∷ 0 ∷ 0 ∷ 0 ∷ 0 ∷ 0 ∷ 0 ∷ 0 ∷ 0
                      ∷ 0 ∷ 0 ∷ 1 ∷ []))))))

-- What is read of a question that stands whole in a slice.
record Reads (q : Slice) (n : ℕ) (ls : List Bytes) (type class : ℕ × ℕ) : Type 0 where
  name : read_name n q n 0 ≡ some (labels_text ls, length (labels_text ls))
  terminator : index q (length (labels_text ls)) ≡ some 0
  type_read : slice q (length (labels_text ls) + 1) 2 ≡ some (pair type [])
  class_read : slice q (length (labels_text ls) + 3) 2 ≡ some (pair class [])

question-Reads :
    (q : Slice) (n : ℕ) (ls : List Bytes) (type class : ℕ × ℕ) (rest : Bytes)
    → All IsLabel ls
    → q.bytes ≡ labels_text ls ++ 0 ∷ pair type (pair class rest)
    → length (labels_text ls) < q.size
    → q.size < n
    → Reads q n ls type class
question-Reads q n ls (t1, t2) (c1, c2) rest labels e h hn =
    let z = length (labels_text ls) in
    let size = length-append (labels_text ls) (0 ∷ t1 ∷ t2 ∷ c1 ∷ c2 ∷ rest) in
    let whole_size = ap length e in
    let zeroth : 0 + z ≡ z = omega arith in
    let first : z + 1 ≡ suc z = omega arith in
    let third : z + 3 ≡ suc (suc (suc z)) = omega arith in
    let d0 : drop z q.bytes ≡ 0 ∷ t1 ∷ t2 ∷ c1 ∷ c2 ∷ rest =
      rw (← zeroth) (drop-append q.bytes (labels_text ls) _ 0 e) in
    let d1 = drop-step q.bytes (t1 ∷ t2 ∷ c1 ∷ c2 ∷ rest) z 0 d0 in
    let d2 = drop-step q.bytes (t2 ∷ c1 ∷ c2 ∷ rest) (suc z) t1 d1 in
    let d3 = drop-step q.bytes (c1 ∷ c2 ∷ rest) (suc (suc z)) t2 d2 in
    let read =
      read_name-labels n q n 0 ls (t1 ∷ t2 ∷ c1 ∷ c2 ∷ rest) labels (omega (arith, h))
        (omega (arith, h, hn)) (omega (arith, h, hn)) e in
    record {
      name = rw zeroth at read;
      terminator = index-drop q (t1 ∷ t2 ∷ c1 ∷ c2 ∷ rest) z 0 h d0;
      type_read = rw first (
          slice-drop q (t1 ∷ t2 ∷ []) (c1 ∷ c2 ∷ rest) (suc z) (omega (arith, size, whole_size))
            d1);
      class_read = rw third (
          slice-drop q (c1 ∷ c2 ∷ []) rest (suc (suc (suc z))) (omega (arith, size, whole_size))
            d3);
    }

-- A query whose labels are labels, at the start of the buffer: the answer has the query's id, its
-- question, and one record with the address ::1.
pub build_response-answers :
    (x : Query) (unread : Bytes)
    → All IsLabel x.labels
    → build_response (query_text x ++ unread) (length (query_text x)) ≡ some (answer_text x)
unfolding build_response slice tail_slice
build_response-answers x unread labels =
    let n = length (query_text x) in
    let q : Slice = record { bytes = drop 12 (query_text x ++ unread); size = n - 12 } in
    let size = length-append (labels_text x.labels) (0 ∷ pair x.type (pair x.class x.extra)) in
    let total = length-append (query_text x) unread in
    let r =
      question-Reads q n x.labels x.type x.class (x.extra ++ unread) labels
        (append_assoc (labels_text x.labels) (0 ∷ pair x.type (pair x.class x.extra)) unread)
        (omega (arith, size)) (omega (arith, size)) in
    let t : tail_slice (query_text x ++ unread) 12 n ≡ some q = ground (arith, total) in
    let s0 : slice (whole (query_text x ++ unread)) 0 2 ≡ some (pair x.id []) =
      ground (arith, total) in
    let s4 : slice (whole (query_text x ++ unread)) 4 2 ≡ some (pair x.questions []) =
      ground (arith, total) in
    let s8 : slice (whole (query_text x ++ unread)) 8 2 ≡ some (pair x.authorities []) =
      ground (arith, total) in
    rw (s0, s4, s8, t, r.name, r.terminator, r.type_read, r.class_read) refl
