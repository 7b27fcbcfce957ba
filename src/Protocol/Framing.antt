-- ===== src/Protocol/Framing.antt =====
-- What a message looks like on the wire: writing and reading are inverse to one another.
use mmar.Constants.{tunnel_message_data_delimiter, tunnel_message_protocol_version}
use mmar.Prelude.Decimal.{ℤ, pos, negsuc, atoi, itoa}
use mmar.Prelude.Decimal.RoundTrip.{IsDigit, itoa-IsDigit, atoi-itoa}
use mmar.Prelude.Io.{
  Error, ok, err, panic, invalid_message_type, bind_outcome, lift, read_byte, read_full, read_line,
  cut_at_delimiter,
}
use mmar.Prelude.{
  ℕ, ◌≤◌, ◌≡◌, ◌≢◌, refl, true, false, ◌&&◌, Bytes, [], ◌∷◌, ◌++◌, arith, leb, ltb, length, All,
  length-append, take-append_length, drop-append_length, append_assoc, append-nil, if◌then◌else◌,
  Bool-cases, inl, inr, sym, ◌∙◌,
}
use mmar.Protocol.{
  is_valid_tunnel_message_type, TunnelMessage, frame, serialize_message, make_len, max_alloc,
  read_message_data, deserialize_message,
}

-- The types of the protocol are the numbers 1 to 19.
abbrev pub IsValidType : ℕ → Type 0
IsValidType t = (1 ≤ t) × (t ≤ 19)

-- The loop accepts exactly the types of the protocol.
pub is_valid_type_lem :
    (t : ℕ)
    → is_valid_tunnel_message_type t
      ≡ (if leb 1 t && leb t 19 then ok t else err invalid_message_type)
unfolding is_valid_tunnel_message_type
is_valid_type_lem t = ground arith

valid_type : (t : ℕ) → IsValidType t → is_valid_tunnel_message_type t ≡ ok t
valid_type t v = rw is_valid_type_lem (ground arith)

read_line_lem :
    (d : ℕ) (s rest : Bytes) (e : Error)
    → All (λ c. c ≢ d) s
    → read_line d (record { pending = s ++ d ∷ rest; fails_with = e })
      ≡ (ok s, record { pending = rest; fails_with = e })
unfolding read_line
read_line_lem d s rest e h = rw (read_line, cut_at_delimiter d s rest h)

read_full_lem :
    (s rest : Bytes) (e : Error)
    → read_full (length s) (record { pending = s ++ rest; fails_with = e })
      ≡ (ok s, record { pending = rest; fails_with = e })
unfolding read_full
read_full_lem s rest e = rw (long_enough, take-append_length s rest, drop-append_length s rest)
  where
    long_enough : leb (length s) (length (s ++ rest)) ≡ true
    long_enough = ground (arith, length-append s rest)

IsDigit-ne-delimiter : (s : Bytes) → All IsDigit s → All (λ c. c ≢ tunnel_message_data_delimiter) s
IsDigit-ne-delimiter [] h = tt
IsDigit-ne-delimiter (c ∷ s) h = (omega arith, IsDigit-ne-delimiter s h.1)

-- The wire format of the source's diagram.
abbrev pub wire : TunnelMessage → Bytes
wire m =
    tunnel_message_protocol_version
    ∷ m.msg_type
    ∷ (itoa (length m.msg_data) ++ tunnel_message_data_delimiter ∷ m.msg_data)

-- A valid message is written as the protocol's diagram says.
pub serialize-wire :
    (m : TunnelMessage) → IsValidType m.msg_type → serialize_message m ≡ ok (wire m)
unfolding serialize_message
serialize-wire m v = rw (valid_type m.msg_type v, frame) (unfold frame in rw append-nil)

-- Behind a well-formed header, reading goes on with the data.
deserialize_header :
    (t : ℕ) (s rest : Bytes) (e : Error) (len : ℤ)
    → IsValidType t
    → All (λ c. c ≢ tunnel_message_data_delimiter) s
    → atoi s ≡ ok len
    → deserialize_message (record {
      pending = tunnel_message_protocol_version ∷ t ∷ (s ++ tunnel_message_data_delimiter ∷ rest);
      fails_with = e;
    })
      ≡ bind_outcome
          (read_message_data len (record { pending = rest; fails_with = e }))
          (λ payload. lift (ok (record { msg_type = t; msg_data = payload })))
unfolding deserialize_message read_byte
deserialize_header t s rest e len v lacks num =
    rw (valid_type t v, read_line_lem tunnel_message_data_delimiter s rest e lacks, num)

-- Only messages of a valid type are written.
serialize-ok :
    (m : TunnelMessage) (s : Bytes)
    → serialize_message m ≡ ok s
    → IsValidType m.msg_type × (s ≡ wire m)
unfolding serialize_message
serialize-ok m s h = elim (Bool-cases (leb 1 m.msg_type && leb m.msg_type 19)) [
  | inl good ↦
      let v : IsValidType m.msg_type = (ground arith, ground arith) in
      (v, ok-injective (sym h ∙ serialize-wire m v))
  | inr bad ↦ absurd (refused bad)
]
  where
    ok-injective : {a b : Bytes} → ok a ≡ ok b → a ≡ b
    ok-injective e = cc

    refused : leb 1 m.msg_type && leb m.msg_type 19 ≡ false → ⊥
    refused bad = unfold frame in ground (arith, is_valid_type_lem m.msg_type)

read_payload :
    (m : TunnelMessage) (rest : Bytes) (e : Error)
    → length m.msg_data ≤ max_alloc
    → read_message_data
        (pos (length m.msg_data))
        (record { pending = m.msg_data ++ rest; fails_with = e })
      ≡ (ok m.msg_data, record { pending = rest; fails_with = e })
unfolding read_message_data
read_payload m rest e fits = rw (not_above, read_full_lem)
  where
    not_above : ltb max_alloc (length m.msg_data) ≡ false
    not_above = ground arith

wire-append :
    (m : TunnelMessage) (rest : Bytes)
    → wire m ++ rest
      ≡ tunnel_message_protocol_version
        ∷ m.msg_type
        ∷ (itoa (length m.msg_data) ++ tunnel_message_data_delimiter ∷ (m.msg_data ++ rest))
wire-append m rest = rw append_assoc

-- A message of a valid type that the run time can hold is read back from its wire format, and
-- whatever follows it on the connection is left for the next read.
pub deserialize-serialize :
    (m : TunnelMessage) (s rest : Bytes) (e : Error)
    → serialize_message m ≡ ok s
    → length m.msg_data ≤ max_alloc
    → deserialize_message (record { pending = s ++ rest; fails_with = e })
      ≡ (ok m, record { pending = rest; fails_with = e })
deserialize-serialize m s rest e written fits =
    let (v, spelled) = serialize-ok m s written in
    rw (spelled, wire-append m rest)
      (rw
        (deserialize_header m.msg_type _ (m.msg_data ++ rest) e (pos (length m.msg_data)) v
          (IsDigit-ne-delimiter _ (itoa-IsDigit (length m.msg_data)))
          (atoi-itoa (length m.msg_data) (omega arith)))
        (rw (read_payload m rest e fits)))

-- A length below zero ends the process: whoever can open a connection can send one.
pub deserialize_negative_length :
    (t : ℕ) (s rest : Bytes) (e : Error) (k : ℕ)
    → IsValidType t
    → All (λ c. c ≢ tunnel_message_data_delimiter) s
    → atoi s ≡ ok (negsuc k)
    → (deserialize_message (record {
      pending = tunnel_message_protocol_version ∷ t ∷ (s ++ tunnel_message_data_delimiter ∷ rest);
      fails_with = e;
    })).0
      ≡ panic
deserialize_negative_length t s rest e k v lacks num =
    rw (deserialize_header t s rest e (negsuc k) v lacks num)
      (unfold read_message_data make_len in refl)
