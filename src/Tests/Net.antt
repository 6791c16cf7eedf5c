-- ===== src/Tests/Net.antt =====
-- The theorems of Net at concrete packets, and tests of the readers.
use verfploeter.Prelude.{ℕ, ◌≡◌, refl, List, [], ◌∷◌, value, arith, shr}
use verfploeter.Net.Cursor.{documented, IsByteOrder}
use verfploeter.Net.Packet.{
  Icmp4Packet, unimplemented, icmp_from, ipv4_from, to_bytes, fold_carries, calc_checksum,
  echo_request,
}
use verfploeter.Net.Packet.Checksum.{ones_sum, ones_sum-echo_request, fold_carries-ends}
use verfploeter.Net.Packet.Layout.{
  InRange, icmp_from-to_bytes, IsIcmpHeader, swap_bytes, icmp_from-echo_request,
}

pub documented-IsByteOrder : IsByteOrder documented
documented-IsByteOrder = record {
  read_u8_lem = λ c. refl;
  read_u16_lem = λ c. refl;
  read_u16_le_lem = λ c. refl;
  read_u32_lem = λ c. refl;
  write_u8_lem = λ v out. refl;
  write_u16_lem = λ v out. refl;
  write_u16_le_lem = λ v c. refl;
}

-- A header of 20 bytes: time to live 64, ICMP, from 10.0.0.2 to 10.0.0.1.
abbrev pub header : List ℕ
header = 69 ∷ 0 ∷ 0 ∷ 0 ∷ 0 ∷ 0 ∷ 0 ∷ 0 ∷ 64 ∷ 1 ∷ 0 ∷ 0 ∷ 10 ∷ 0 ∷ 0 ∷ 2 ∷ 10 ∷ 0 ∷ 0 ∷ 1 ∷ []

pub header-IsIcmpHeader : IsIcmpHeader header
header-IsIcmpHeader = record { fixed = omega arith; whole = refl; icmp = refl }

-- An echo with the body 1 2 3.
abbrev reply : Icmp4Packet
reply = record {
  icmp_type = 0;
  code = 0;
  checksum = 61178;
  identifier = 1;
  sequence_number = 2;
  body = 1 ∷ 2 ∷ 3 ∷ [];
}

reply-InRange : InRange reply
reply-InRange = record {
  icmp_type = omega arith;
  code = omega arith;
  checksum = omega arith;
  identifier = omega arith;
  sequence_number = omega arith;
}

calc_checksum_run : calc_checksum documented (8 ∷ 0 ∷ 0 ∷ 0 ∷ 0 ∷ 1 ∷ 0 ∷ 2 ∷ 255 ∷ []) ≡ 64504
unfolding calc_checksum
calc_checksum_run = refl

ipv4_from_udp :
    ipv4_from documented
      (69 ∷ 0 ∷ 0 ∷ 0 ∷ 0 ∷ 0 ∷ 0 ∷ 0 ∷ 64 ∷ 17 ∷ 0 ∷ 0 ∷ 10 ∷ 0 ∷ 0 ∷ 2 ∷ 10 ∷ 0 ∷ 0 ∷ 1 ∷ [])
    ≡ value (record {
      ttl = 64;
      source_address = 167772162;
      destination_address = 167772161;
      payload = unimplemented;
    })
unfolding ipv4_from
ipv4_from_udp = refl

ones_sum-echo_request_example : ones_sum (echo_request documented 1 2 (1 ∷ 2 ∷ 3 ∷ [])) ≡ 65535
ones_sum-echo_request_example =
    ones_sum-echo_request documented documented-IsByteOrder 1 2 (1 ∷ 2 ∷ 3 ∷ []) (omega arith)
      (omega arith) (omega arith, (omega arith, (omega arith, tt))) (omega arith)

fold_carries-ends_example : shr (fold_carries 2 4294967295) 16 ≡ 0
fold_carries-ends_example = fold_carries-ends 4294967295 (omega arith)

icmp_from-to_bytes_example : icmp_from documented (to_bytes documented reply) ≡ value reply
icmp_from-to_bytes_example =
    icmp_from-to_bytes documented documented-IsByteOrder reply reply-InRange

icmp_from-echo_request_example :
    icmp_from documented (echo_request documented 1 2 (1 ∷ 2 ∷ 3 ∷ []))
    ≡ value (record {
      icmp_type = 8;
      code = 0;
      checksum = swap_bytes (
          calc_checksum documented (
            to_bytes documented (record {
              icmp_type = 8;
              code = 0;
              checksum = 0;
              identifier = 1;
              sequence_number = 2;
              body = 1 ∷ 2 ∷ 3 ∷ [];
            })));
      identifier = 1;
      sequence_number = 2;
      body = 1 ∷ 2 ∷ 3 ∷ [];
    })
icmp_from-echo_request_example =
    icmp_from-echo_request documented documented-IsByteOrder 1 2 (1 ∷ 2 ∷ 3 ∷ []) (omega arith)
      (omega arith)
