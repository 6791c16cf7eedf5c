-- ===== src/Net/Packet.antt =====
-- The packets of src/net/mod.rs and the functions on them.
pub mod Checksum
pub mod Layout
use verfploeter.Prelude.{
  some, none, ℕ, zero, suc, ◌+◌, ◌-◌, ◌*◌, ◌/◌, ◌%◌, ◌^◌, List, [], ◌∷◌, ◌++◌, Outcome, value,
  panic, unwrap, ◌>>=◌, slice_from, length, drop, ltb, ◌==◌, if◌then◌else◌, shr, low_bits, add32,
}
use verfploeter.Net.Cursor.{Cursor, new, set_position, ByteOrder}

pub record Icmp4Packet : Type 0 where
  pub icmp_type : ℕ
  pub code : ℕ
  pub checksum : ℕ
  pub identifier : ℕ
  pub sequence_number : ℕ
  pub body : List ℕ

pub data PacketPayload : Type 0 where
  icmp_v4 : Icmp4Packet → PacketPayload
  unimplemented : PacketPayload

pub record Ipv4Packet : Type 0 where
  pub ttl : ℕ
  pub source_address : ℕ
  pub destination_address : ℕ
  pub payload : PacketPayload

-- The four right bits of the first byte count the header in words of four bytes; the product is
-- at most 60, so it does not wrap in `u8`.
abbrev pub header_length : ℕ → ℕ
header_length first = low_bits first 4 * 4

-- `while sum >> 16 > 0`. Two rounds bring any `u32` below 2^16 (`fold_carries-ends`).
pub fold_carries : ℕ → ℕ → ℕ
fold_carries zero sum = sum
fold_carries (suc fuel) sum =
    let folded = fold_carries fuel (low_bits sum 16 + shr sum 16) in
    if ltb 0 (shr sum 16) then folded else sum

module _ (b : ByteOrder) where
  -- `impl From<&[u8]> for ICMP4Packet`
  unfoldable pub icmp_from : List ℕ → Outcome Icmp4Packet
  icmp_from bytes = do
    (icmp_type, c1) ← unwrap (b.read_u8 (new bytes))
    (code, c2) ← unwrap (b.read_u8 c1)
    (checksum, c3) ← unwrap (b.read_u16 c2)
    (identifier, c4) ← unwrap (b.read_u16 c3)
    (sequence_number, c5) ← unwrap (b.read_u16 c4)
    body ← slice_from 8 bytes
    value (record {
      icmp_type = icmp_type;
      code = code;
      checksum = checksum;
      identifier = identifier;
      sequence_number = sequence_number;
      body = body;
    })

  payload_from : ℕ → List ℕ → Outcome PacketPayload
  payload_from packet_type bytes =
      if packet_type == 1 then icmp_from bytes >>= (λ p. value (icmp_v4 p)) else value unimplemented

  -- `impl From<&[u8]> for IPv4Packet`
  unfoldable pub ipv4_from : List ℕ → Outcome Ipv4Packet
  unfolding payload_from
  ipv4_from bytes = do
    (first, c1) ← unwrap (b.read_u8 (new bytes))
    (ttl, c2) ← unwrap (b.read_u8 (set_position 8 c1))
    (packet_type, c3) ← unwrap (b.read_u8 c2)
    (source_address, c4) ← unwrap (b.read_u32 (set_position 12 c3))
    (destination_address, c5) ← unwrap (b.read_u32 c4)
    payload_bytes ← slice_from (header_length first) bytes
    payload ← payload_from packet_type payload_bytes
    value (record {
      ttl = ttl;
      source_address = source_address;
      destination_address = destination_address;
      payload = payload;
    })

  -- `impl Into<Vec<u8>> for &ICMP4Packet`
  unfoldable pub to_bytes : Icmp4Packet → List ℕ
  to_bytes p =
      b.write_u16 p.sequence_number (
        b.write_u16 p.identifier
          (b.write_u16 p.checksum (b.write_u8 p.code (b.write_u8 p.icmp_type []))))
      ++ p.body

  -- `while let Ok(word)`: a round takes two bytes, so the length of the buffer is enough fuel.
  sum_words : ℕ → ℕ → Cursor → ℕ × Cursor
  sum_words zero sum cursor = (sum, cursor)
  sum_words (suc fuel) sum cursor = elim (b.read_u16_le cursor) [
    | some (word, cursor') ↦ sum_words fuel (add32 sum word) cursor'
    | none ↦ (sum, cursor)
  ]

  -- With the odd last byte.
  sum_bytes : List ℕ → ℕ
  unfolding sum_words
  sum_bytes buffer =
      let (sum, cursor) = sum_words (length buffer) 0 (new buffer) in
      elim (b.read_u8 cursor) [ some (last, cursor') ↦ add32 sum last | none ↦ sum ]

  unfoldable pub calc_checksum : List ℕ → ℕ
  unfolding sum_bytes fold_carries
  calc_checksum buffer = (2 ^ 32 - 1 - fold_carries 2 (sum_bytes buffer)) % 2 ^ 16

  -- `ICMP4Packet::echo_request`
  unfoldable pub echo_request : ℕ → ℕ → List ℕ → List ℕ
  unfolding to_bytes
  echo_request identifier sequence_number body =
      let packet : Icmp4Packet = record {
        icmp_type = 8;
        code = 0;
        checksum = 0;
        identifier = identifier;
        sequence_number = sequence_number;
        body = body;
      } in
      let bytes = to_bytes packet in
      let cursor = set_position 2 (new bytes) in (b.write_u16_le (calc_checksum bytes) cursor).inner
