-- ===== src/Schema/Address/Codec.antt =====
-- The size of an address, and what other messages take from it.
use verfploeter.Schema.Address.RoundTrip.{IsAddress, merge_from-write_to}
use verfploeter.Prelude.{
  ℕ, ◌+◌, [], Option, none, some, Default, length, length-append, arith, add32,
}
use verfploeter.Schema.Wire.{Protobuf, IsProtobuf, wire_type_varint}
use verfploeter.Schema.Wire.Sizes.{Counts, Counts-unknown}
use verfploeter.Schema.Wire.Nested.{Codec}
use verfploeter.Schema.Address.{
  Address, new, compute_size, write_to, merge_from, AddressValue, v4, v6,
}

module _ {U : Type 0} ⦃u : Default U⦄ (w : Protobuf U) (h : IsProtobuf w) where
  value-Counts :
      (value : Option (AddressValue U)) (size bytes : ℕ)
      → Counts size bytes
      → Counts
          (elim value [
            | some (v4 v) ↦ add32 size (w.value_size 1 v wire_type_varint)
            | some (v6 v) ↦ add32 size (w.bytes_size 2 v)
            | none ↦ size
          ])
          (bytes
            + length (elim value [
              | some (v4 v) ↦ w.write_uint32 1 v
              | some (v6 v) ↦ w.write_bytes 2 v
              | none ↦ []
            ]))
  value-Counts none size bytes e = omega arith
  value-Counts (some (v4 v)) size bytes e = omega (arith, h.value_size_uint32 1 v)
  value-Counts (some (v6 v)) size bytes e = omega (arith, h.bytes_size_lem 2 v)

  -- `compute_size` is the number of bytes that are written, in 32 bits.
  pub Address-compute_size : (m : Address U) → Counts (compute_size w m) (length (write_to w m))
  unfolding compute_size write_to
  Address-compute_size m =
      let s1 = value-Counts m.value 0 0 (omega arith) in
      let all = Counts-unknown w h m.unknown_fields _ _ s1 in rw length-append (omega arith)

  pub Address-Codec : Codec IsAddress new (compute_size w) (write_to w) (merge_from w)
  Address-Codec = record {
    size = Address-compute_size;
    round = λ m fits bound. merge_from-write_to w h m fits;
  }
