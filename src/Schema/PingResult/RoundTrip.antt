-- ===== src/Schema/PingResult/RoundTrip.antt =====
-- The size of a ping result, and reading back what it writes.
use verfploeter.Prelude.{
  ℕ, ◌<◌, ◌^◌, ◌≡◌, sym, ap, not, Option, none, Default, length, length-append, arith, IsU32, IsU64,
  ◌==◌,
}
use verfploeter.Schema.Wire.{Protobuf, IsProtobuf, ok, wire_type_varint, wire_type_length_delimited}
use verfploeter.Schema.Wire.Loop.{Reads-nil}
use verfploeter.Schema.Wire.Sizes.{Counts, Counts-if, Counts-field, Counts-unknown}
use verfploeter.Schema.Wire.Fields.{Merges, Merges-uint32, Merges-uint64}
use verfploeter.Schema.Wire.Nested.{Codec, OfSome, Merges-singular}
use verfploeter.Schema.Address
use verfploeter.Schema.Address.{Address}
use verfploeter.Schema.Address.Codec.{Address-compute_size, Address-Codec}
use verfploeter.Schema.Address.RoundTrip.{IsAddress}
use verfploeter.Schema.PingPayload
use verfploeter.Schema.PingPayload.{PingPayload}
use verfploeter.Schema.PingPayload.Codec.{PingPayload-compute_size, PingPayload-Codec}
use verfploeter.Schema.PingPayload.RoundTrip.{IsPingPayload}
use verfploeter.Schema.PingResult.{PingResult, new, compute_size, write_to, merge_field, merge_from}

-- The values fit their fields, and there are no unknown fields.
pub record IsPingResult {U : Type 0} ⦃u : Default U⦄ (m : PingResult U) : Type 0 where
  pub source_address : OfSome IsAddress m.source_address
  pub destination_address : OfSome IsAddress m.destination_address
  pub receive_time : IsU64 m.receive_time
  pub payload : OfSome IsPingPayload m.payload
  pub ttl : IsU32 m.ttl
  pub unknown_fields : m.unknown_fields ≡ u.default

module _ {U : Type 0} ⦃u : Default U⦄ (w : Protobuf U) (h : IsProtobuf w) where
  -- `compute_size` is the number of bytes that are written, in 32 bits.
  pub PingResult-compute_size :
      (m : PingResult U) → Counts (compute_size w m) (length (write_to w m))
  unfolding compute_size write_to
  PingResult-compute_size m =
      let s1 =
        Counts-field w h (Address.compute_size w) (Address.write_to w) (Address-compute_size w h) 1
          m.source_address 0 0 (omega arith) (omega arith) (omega arith) in
      let s2 =
        Counts-field w h (Address.compute_size w) (Address.write_to w) (Address-compute_size w h) 2
          m.destination_address _ _ (omega arith) (omega arith) s1 in
      let s3 =
        Counts-if (not (m.receive_time == 0)) _ _ (w.value_size 3 m.receive_time wire_type_varint)
          (w.write_uint64 3 m.receive_time) s2 (h.value_size_uint64 3 m.receive_time) in
      let s4 =
        Counts-field w h (PingPayload.compute_size w) (PingPayload.write_to w)
          (PingPayload-compute_size w h) 4 m.payload _ _ (omega arith) (omega arith) s3 in
      let s5 =
        Counts-if (not (m.ttl == 0)) _ _ (w.value_size 5 m.ttl wire_type_varint)
          (w.write_uint32 5 m.ttl) s4 (h.value_size_uint32 5 m.ttl) in
      let all = Counts-unknown w h m.unknown_fields _ _ s5 in
      rw (length-append, length-append, length-append, length-append, length-append) (omega arith)

  at : Option (Address U) → Option (Address U) → ℕ → Option (PingPayload U) → ℕ → PingResult U
  at source_address destination_address receive_time payload ttl = record {
    source_address = source_address;
    destination_address = destination_address;
    receive_time = receive_time;
    payload = payload;
    ttl = ttl;
    unknown_fields = u.default;
  }

  write_to-Merges :
      (source_address : Option (Address U)) (destination_address : Option (Address U))
      (receive_time : ℕ) (payload : Option (PingPayload U)) (ttl : ℕ)
      → OfSome IsAddress source_address
      → OfSome IsAddress destination_address
      → IsU64 receive_time
      → OfSome IsPingPayload payload
      → IsU32 ttl
      → Merges w h
          (merge_field w)
          new
          (write_to w (at source_address destination_address receive_time payload ttl))
          (at source_address destination_address receive_time payload ttl)
  unfolding at write_to merge_field
  write_to-Merges source_address destination_address receive_time payload ttl source_address_fits
        destination_address_fits receive_time_fits payload_fits ttl_fits =
      rw h.no_unknown_fields (
        Merges-singular w h (merge_field w) (Address-Codec w h) 1 source_address
          (λ v. at v none 0 none 0) _ _ (omega arith) (omega arith)
          (λ is.
            rw (
              h.read_tag 1 wire_type_length_delimited is (omega arith) (omega arith) (omega arith)))
          source_address_fits
          (Merges-singular w h (merge_field w) (Address-Codec w h) 2 destination_address
            (λ v. at source_address v 0 none 0) _ _ (omega arith) (omega arith)
            (λ is. rw (
              h.read_tag 2 wire_type_length_delimited is (omega arith) (omega arith) (omega arith)))
            destination_address_fits
            (Merges-uint64 w h (merge_field w) 3 receive_time
              (λ v. at source_address destination_address v none 0) _ _ (omega arith) (omega arith)
              (λ is.
                rw (h.read_tag 3 wire_type_varint is (omega arith) (omega arith) (omega arith)))
              receive_time_fits
              (Merges-singular w h (merge_field w) (PingPayload-Codec w h) 4 payload
                (λ v. at source_address destination_address receive_time v 0) _ _ (omega arith)
                (omega arith)
                (λ is. rw (
                  h.read_tag 4 wire_type_length_delimited is (omega arith) (omega arith)
                    (omega arith)))
                payload_fits
                (Merges-uint32 w h (merge_field w) 5 ttl
                  (λ v. at source_address destination_address receive_time payload v) _ _
                  (omega arith) (omega arith)
                  (λ is.
                    rw (h.read_tag 5 wire_type_varint is (omega arith) (omega arith) (omega arith)))
                  ttl_fits (λ bound. Reads-nil (merge_field w) _))))))

  at-eq :
      (m : PingResult U)
      → m.unknown_fields ≡ u.default
      → at m.source_address m.destination_address m.receive_time m.payload m.ttl ≡ m
  unfolding at
  at-eq m e = ap (λ fields. record m { unknown_fields = fields }) (sym e)

  -- A ping result whose values fit their fields, without unknown fields, reads back from the bytes
  -- that it writes, if these are fewer than 2^32.
  pub PingResult-merge_from :
      (m : PingResult U)
      → IsPingResult m
      → length (write_to w m) < 2 ^ 32
      → merge_from w new (write_to w m) ≡ ok m
  unfolding merge_from
  PingResult-merge_from m fits = rw (← at-eq m fits.unknown_fields) (λ bound.
      write_to-Merges m.source_address m.destination_address m.receive_time m.payload m.ttl
        fits.source_address fits.destination_address fits.receive_time fits.payload fits.ttl bound _
        (omega arith))

  pub PingResult-Codec : Codec IsPingResult new (compute_size w) (write_to w) (merge_from w)
  PingResult-Codec = record { size = PingResult-compute_size; round = PingResult-merge_from }
