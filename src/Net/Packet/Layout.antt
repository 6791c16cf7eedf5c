-- ===== src/Net/Packet/Layout.antt =====
-- The byte layout of packets: reading undoes writing, and which inputs make the readers panic.
use verfploeter.Prelude.{
  ◌∙◌, ℕ, ◌+◌, ◌*◌, ◌/◌, ◌%◌, ◌≤◌, ◌≡◌, ap, ◌⊎◌, ◌≢◌, List, ◌++◌, arith, value, length, get_or,
  drop, IsU8, IsU16, length-append, drop-append, get_or-append_left,
}
use verfploeter.Net.Cursor.{ByteOrder, IsByteOrder, documented, IsByteOrder-eq}
use verfploeter.Net.Packet.{
  Icmp4Packet, icmp_v4, icmp_from, ipv4_from, header_length, to_bytes, calc_checksum, echo_request,
}

-- The fields of an ICMP packet lie in their ranges.
pub record InRange (p : Icmp4Packet) : Type 0 where
  pub icmp_type : IsU8 p.icmp_type
  pub code : IsU8 p.code
  pub checksum : IsU16 p.checksum
  pub identifier : IsU16 p.identifier
  pub sequence_number : IsU16 p.sequence_number

to_bytes_reads :
    (p : Icmp4Packet) → InRange p → icmp_from documented (to_bytes documented p) ≡ value p
unfolding icmp_from to_bytes
to_bytes_reads p r = ground arith

-- The bytes have the fixed part of a header, the header that the first byte counts, and, if the
-- protocol is ICMP, eight bytes behind it.
pub record IsDatagram (bytes : List ℕ) : Type 0 where
  pub fixed : 20 ≤ length bytes
  pub header : header_length (get_or bytes 0 0) ≤ length bytes
  pub message : (get_or bytes 9 0 ≢ 1) ⊎ (header_length (get_or bytes 0 0) + 8 ≤ length bytes)

abbrev payload_bytes : List ℕ → List ℕ
payload_bytes bytes = drop (header_length (get_or bytes 0 0)) bytes

-- The big-endian number in the four bytes from `i` on.
abbrev pub u32_at : List ℕ → ℕ → ℕ
u32_at bytes i =
    ((get_or bytes i 0 * 256 + get_or bytes (i + 1) 0) * 256 + get_or bytes (i + 2) 0) * 256
    + get_or bytes (i + 3) 0

-- A datagram header of `header_length` bytes, at least 20, for ICMP.
pub record IsIcmpHeader (header : List ℕ) : Type 0 where
  pub fixed : 20 ≤ length header
  pub whole : length header ≡ header_length (get_or header 0 0)
  pub icmp : get_or header 9 0 ≡ 1

ipv4_from-value :
    (bytes message : List ℕ) (p : Icmp4Packet)
    → 20 ≤ length bytes
    → header_length (get_or bytes 0 0) ≤ length bytes
    → get_or bytes 9 0 ≡ 1
    → drop (header_length (get_or bytes 0 0)) bytes ≡ message
    → icmp_from documented message ≡ value p
    → ipv4_from documented bytes
      ≡ value (record {
        ttl = get_or bytes 8 0;
        source_address = u32_at bytes 12;
        destination_address = u32_at bytes 16;
        payload = icmp_v4 p;
      })
unfolding ipv4_from
ipv4_from-value bytes message p fixed fits icmp at_message parsed = ground arith

datagram_reads :
    (header message : List ℕ) (p : Icmp4Packet)
    → IsIcmpHeader header
    → icmp_from documented message ≡ value p
    → ipv4_from documented (header ++ message)
      ≡ value (record {
        ttl = get_or header 8 0;
        source_address = u32_at header 12;
        destination_address = u32_at header 16;
        payload = icmp_v4 p;
      })
datagram_reads header message p h parsed = ground (
  arith,
  ipv4_from-value (header ++ message) message p,
  length-append {0} header message,
  ap (λ (n : ℕ). drop n (header ++ message)) h.whole,
  drop-append {0} header message,
  get_or-append_left {0} header message 0 0,
  get_or-append_left {0} header message 8 0,
  get_or-append_left {0} header message 9 0,
  get_or-append_left {0} header message 12 0,
  get_or-append_left {0} header message 13 0,
  get_or-append_left {0} header message 14 0,
  get_or-append_left {0} header message 15 0,
  get_or-append_left {0} header message 16 0,
  get_or-append_left {0} header message 17 0,
  get_or-append_left {0} header message 18 0,
  get_or-append_left {0} header message 19 0,
)

-- The checksum is written low byte first and read high byte first.
abbrev pub swap_bytes : ℕ → ℕ
swap_bytes c = c % 256 * 256 + c / 256

request_reads :
    (identifier sequence_number : ℕ) (body : List ℕ)
    → IsU16 identifier
    → IsU16 sequence_number
    → icmp_from documented (echo_request documented identifier sequence_number body)
      ≡ value (record {
        icmp_type = 8;
        code = 0;
        checksum = swap_bytes (
            calc_checksum documented (
              to_bytes documented (record {
                icmp_type = 8;
                code = 0;
                checksum = 0;
                identifier = identifier;
                sequence_number = sequence_number;
                body = body;
              })));
        identifier = identifier;
        sequence_number = sequence_number;
        body = body;
      })
unfolding echo_request icmp_from calc_checksum
request_reads identifier sequence_number body hi hs = ground arith

module _ (b : ByteOrder) (order : IsByteOrder b) where
  -- A packet whose fields are in range reads back from the bytes that it is written as.
  pub icmp_from-to_bytes : (p : Icmp4Packet) → InRange p → icmp_from b (to_bytes b p) ≡ value p
  icmp_from-to_bytes p r = rw (← IsByteOrder-eq b order) (to_bytes_reads p r)

  pub ipv4_from-append :
      (header message : List ℕ) (p : Icmp4Packet)
      → IsIcmpHeader header
      → icmp_from b message ≡ value p
      → ipv4_from b (header ++ message)
        ≡ value (record {
          ttl = get_or header 8 0;
          source_address = u32_at header 12;
          destination_address = u32_at header 16;
          payload = icmp_v4 p;
        })
  ipv4_from-append header message p h parsed =
      let documented_parsed : icmp_from documented message ≡ value p =
        ap (λ b. icmp_from b message) (IsByteOrder-eq b order) ∙ parsed in
      rw (← IsByteOrder-eq b order) (datagram_reads header message p h documented_parsed)

  -- For an identifier and a sequence number of 16 bits a request reads back with type 8, code 0, the
  -- identifier, number and body that it was given, and the checksum with its bytes swapped.
  pub icmp_from-echo_request :
      (identifier sequence_number : ℕ) (body : List ℕ)
      → IsU16 identifier
      → IsU16 sequence_number
      → icmp_from b (echo_request b identifier sequence_number body)
        ≡ value (record {
          icmp_type = 8;
          code = 0;
          checksum = swap_bytes (
              calc_checksum b (
                to_bytes b (record {
                  icmp_type = 8;
                  code = 0;
                  checksum = 0;
                  identifier = identifier;
                  sequence_number = sequence_number;
                  body = body;
                })));
          identifier = identifier;
          sequence_number = sequence_number;
          body = body;
        })
  icmp_from-echo_request identifier sequence_number body hi hs =
      rw (← IsByteOrder-eq b order) (request_reads identifier sequence_number body hi hs)
