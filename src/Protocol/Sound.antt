-- ===== src/Protocol/Sound.antt =====
-- What a read message says about the bytes that were read.
use mmar.Constants.{tunnel_message_data_delimiter, tunnel_message_protocol_version}
use mmar.Prelude.Decimal.{ℤ, pos, negsuc, atoi}
use mmar.Prelude.Io.{
  Error, Outcome, ok, err, panic, Reader, Read, bind_outcome, read_byte, read_byte_from, read_full,
  read_line, cut_at,
}
use mmar.Prelude.{
  ℕ, ◌≡◌, ◌≢◌, refl, ap, true, Bytes, [], ◌∷◌, ◌++◌, arith, length, All, length-take,
  take-append-drop,
}
use mmar.Protocol.{
  is_valid_tunnel_message_type, TunnelMessage, make_len, read_message_data, check_version,
  deserialize_message,
}
use mmar.Protocol.Framing.{IsValidType, is_valid_type_lem}

-- Inversion of a step that succeeded.
bind-ok {ℓ κ μ} :
    {A : Type ℓ} {B : Type κ} {P : Type μ} (m : Outcome A × Reader) (f : A → Read B) {b : B}
    {r : Reader}
    → bind_outcome m f ≡ (ok b, r)
    → ((a : A) (q : Reader) → m ≡ (ok a, q) → f a q ≡ (ok b, r) → P)
    → P
bind-ok (ok a, q) f h k = k a q refl h
bind-ok (err e, q) f h k = absurd (ground arith)
bind-ok (panic, q) f h k = absurd (ground arith)

read_byte_from-ok :
    (bs : Bytes) (e : Error) {b : ℕ} {q : Reader}
    → read_byte_from bs e ≡ (ok b, q)
    → (bs ≡ b ∷ q.pending) × (q.fails_with ≡ e)
unfolding read_byte_from
read_byte_from-ok [] e h = absurd (ground arith)
read_byte_from-ok (b ∷ bs) e h = ground arith

read_byte-ok :
    (r : Reader) {b : ℕ} {q : Reader}
    → read_byte r ≡ (ok b, q)
    → (r.pending ≡ b ∷ q.pending) × (q.fails_with ≡ r.fails_with)
unfolding read_byte
read_byte-ok r h = read_byte_from-ok r.pending r.fails_with h

cut_at-found :
    (d : ℕ) (bs : Bytes)
    → (cut_at d bs).0 ≡ true
    → (bs ≡ (cut_at d bs).1 ++ d ∷ (cut_at d bs).2) × All (λ c. c ≢ d) (cut_at d bs).1
unfolding cut_at
cut_at-found d [] h = absurd (ground arith)
cut_at-found d (b ∷ bs) h = ground (arith, cut_at-found d bs)

read_line-ok :
    (d : ℕ) (r : Reader) {s : Bytes} {q : Reader}
    → read_line d r ≡ (ok s, q)
    → (r.pending ≡ s ++ d ∷ q.pending) × All (λ c. c ≢ d) s × (q.fails_with ≡ r.fails_with)
unfolding read_line
read_line-ok d r h = ground (arith, cut_at-found d r.pending)

read_full-ok :
    (n : ℕ) (r : Reader) {s : Bytes} {q : Reader}
    → read_full n r ≡ (ok s, q)
    → (r.pending ≡ s ++ q.pending) × (length s ≡ n) × (q.fails_with ≡ r.fails_with)
unfolding read_full
read_full-ok n r h = ground (arith, take-append-drop n r.pending, length-take n r.pending)

is_valid_tunnel_message_type-ok :
    (p : ℕ) {t : ℕ} → is_valid_tunnel_message_type p ≡ ok t → IsValidType t × (t ≡ p)
is_valid_tunnel_message_type-ok p h = ground (arith, is_valid_type_lem p)

read_message_data-ok :
    (len : ℤ) (r : Reader) {s : Bytes} {q : Reader}
    → read_message_data len r ≡ (ok s, q)
    → (len ≡ pos (length s)) × (r.pending ≡ s ++ q.pending) × (q.fails_with ≡ r.fails_with)
unfolding read_message_data make_len
read_message_data-ok (pos n) r {s} {q} h = ground (arith, read_full-ok n r {s = s} {q = q})
read_message_data-ok (negsuc n) r h = absurd (ground arith)

check_version-ok :
    (v : ℕ) {u : Unit {0}} → check_version v ≡ ok u → v ≡ tunnel_message_protocol_version
unfolding check_version
check_version-ok v h = ground arith

-- The parts of a message that was read: the text of its length, and the bytes that it stood in.
pub record ReadFrom (r : Reader) (m : TunnelMessage) (q : Reader) : Type 0 where
  pub length_text : Bytes
  pub valid : IsValidType m.msg_type
  pub no_delimiter : All (λ c. c ≢ tunnel_message_data_delimiter) length_text
  pub length_read : atoi length_text ≡ ok (pos (length m.msg_data))
  pub spelled :
      r.pending
      ≡ tunnel_message_protocol_version
        ∷ m.msg_type
        ∷ (length_text ++ tunnel_message_data_delimiter ∷ (m.msg_data ++ q.pending))
  same_end : q.fails_with ≡ r.fails_with

-- A message that was read stood at the head of the input in the format of the protocol: its
-- version, a valid type, a text that reads as the length of the data, the delimiter and the data.
-- The reader is left behind it.
pub deserialize_sound :
    (r : Reader) (m : TunnelMessage) (q : Reader)
    → deserialize_message r ≡ (ok m, q)
    → ReadFrom r m q
unfolding deserialize_message
deserialize_sound r m q h = bind-ok (read_byte r) _ h λ v r1 e1 h1.
    bind-ok (check_version v, r1) _ h1
      λ u r2 e2 h2. bind-ok (read_byte r2) _ h2 λ p r3 e3 h3.
        bind-ok (is_valid_tunnel_message_type p, r3) _ h3
          λ t r4 e4 h4. bind-ok (read_line tunnel_message_data_delimiter r4) _ h4 λ s r5 e5 h5.
            bind-ok (atoi s, r5) _ h5
              λ len r6 e6 h6. bind-ok (read_message_data len r6) _ h6 λ payload r7 e7 h7.
                let head = check_version-ok v (ap (λ o. o.0) e2) in
                let (p0, p1) = read_byte-ok r e1 in
                let (p2, p3) = read_byte-ok r2 e3 in
                let (good, same) = is_valid_tunnel_message_type-ok p (ap (λ o. o.0) e4) in
                let (p4, lacks, p5) = read_line-ok tunnel_message_data_delimiter r4 e5 in
                let (size, p6, p7) = read_message_data-ok len r6 e7 in
                record {
                  length_text = s;
                  valid = ground arith;
                  no_delimiter = lacks;
                  length_read = ground arith;
                  spelled = ground arith;
                  same_end = ground arith;
                }
