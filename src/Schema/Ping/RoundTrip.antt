-- ===== src/Schema/Ping/RoundTrip.antt =====
-- The size of a ping, and reading back what it writes.
use verfploeter.Prelude.{
  ◌<◌, ◌^◌, ◌≡◌, refl, sym, ap, List, [], Option, Default, length, length-append, arith, All,
}
use verfploeter.Schema.Wire.{Protobuf, IsProtobuf, ok, wire_type_length_delimited}
use verfploeter.Schema.Wire.Loop.{Reads-nil}
use verfploeter.Schema.Wire.Sizes.{Counts, Counts-field, Counts-repeated, Counts-unknown}
use verfploeter.Schema.Wire.Fields.{Merges}
use verfploeter.Schema.Wire.Nested.{Codec, OfSome, Merges-singular, Merges-repeated}
use verfploeter.Schema.Address
use verfploeter.Schema.Address.{Address}
use verfploeter.Schema.Address.Codec.{Address-compute_size, Address-Codec}
use verfploeter.Schema.Address.RoundTrip.{IsAddress}
use verfploeter.Schema.Ping.{
  Ping, new, compute_size, write_to, merge_field, merge_from, destination_addresses_size,
  write_destination_addresses,
}

-- The values fit their fields, and there are no unknown fields.
pub record IsPing {U : Type 0} ⦃u : Default U⦄ (m : Ping U) : Type 0 where
  pub source_address : OfSome IsAddress m.source_address
  pub destination_addresses : All IsAddress m.destination_addresses
  pub unknown_fields : m.unknown_fields ≡ u.default

module _ {U : Type 0} ⦃u : Default U⦄ (w : Protobuf U) (h : IsProtobuf w) where
  -- `compute_size` is the number of bytes that are written, in 32 bits.
  pub Ping-compute_size : (m : Ping U) → Counts (compute_size w m) (length (write_to w m))
  unfolding compute_size write_to
  Ping-compute_size m =
      let s1 =
        Counts-field w h (Address.compute_size w) (Address.write_to w) (Address-compute_size w h) 1
          m.source_address 0 0 (omega arith) (omega arith) (omega arith) in
      let s2 =
        Counts-repeated w h (Address.compute_size w) (Address.write_to w) (Address-compute_size w h)
          2 (destination_addresses_size w) (write_destination_addresses w) (omega arith)
          (omega arith) (λ size. unfold destination_addresses_size in refl)
          (λ size a more. unfold destination_addresses_size in refl)
          (unfold write_destination_addresses in refl)
          (λ a more. unfold write_destination_addresses in refl) m.destination_addresses _ _ s1 in
      let all = Counts-unknown w h m.unknown_fields _ _ s2 in
      rw (length-append, length-append) (omega arith)

  at : Option (Address U) → List (Address U) → Ping U
  at source_address destination_addresses = record {
    source_address = source_address;
    destination_addresses = destination_addresses;
    unknown_fields = u.default;
  }

  write_to-Merges :
      (source_address : Option (Address U)) (destination_addresses : List (Address U))
      → OfSome IsAddress source_address
      → All IsAddress destination_addresses
      → Merges w h
          (merge_field w)
          new
          (write_to w (at source_address destination_addresses))
          (at source_address destination_addresses)
  unfolding at write_to merge_field
  write_to-Merges source_address destination_addresses source_address_fits
        destination_addresses_fits =
      rw h.no_unknown_fields (
        Merges-singular w h (merge_field w) (Address-Codec w h) 1 source_address (λ v. at v []) _ _
          (omega arith) (omega arith)
          (λ is.
            rw (
              h.read_tag 1 wire_type_length_delimited is (omega arith) (omega arith) (omega arith)))
          source_address_fits
          (Merges-repeated w h (merge_field w) (Address-Codec w h) 2 (write_destination_addresses w)
            (λ v. at source_address v) _ _ (omega arith) (omega arith)
            (unfold write_destination_addresses in refl)
            (λ a more. unfold write_destination_addresses in refl)
            (λ done. λ is. rw (
              h.read_tag 2 wire_type_length_delimited is (omega arith) (omega arith) (omega arith)))
            [] destination_addresses destination_addresses_fits
            (λ bound. Reads-nil (merge_field w) _)))

  at-eq :
      (m : Ping U) → m.unknown_fields ≡ u.default → at m.source_address m.destination_addresses ≡ m
  unfolding at
  at-eq m e = ap (λ fields. record m { unknown_fields = fields }) (sym e)

  -- A ping whose values fit their fields, without unknown fields, reads back from the bytes that it
  -- writes, if these are fewer than 2^32.
  pub Ping-merge_from :
      (m : Ping U)
      → IsPing m
      → length (write_to w m) < 2 ^ 32
      → merge_from w new (write_to w m) ≡ ok m
  unfolding merge_from
  Ping-merge_from m fits = rw (← at-eq m fits.unknown_fields) (λ bound.
      write_to-Merges m.source_address m.destination_addresses fits.source_address
        fits.destination_addresses bound _ (omega arith))

  pub Ping-Codec : Codec IsPing new (compute_size w) (write_to w) (merge_from w)
  Ping-Codec = record { size = Ping-compute_size; round = Ping-merge_from }
