-- ===== src/Schema/Client/RoundTrip.antt =====
-- The size of a client, and reading back what it writes.
use verfploeter.Prelude.{
  ℕ, ◌<◌, ◌^◌, ◌≡◌, sym, ap, not, Option, none, Default, length, length-append, arith, IsU32, ◌==◌,
}
use verfploeter.Schema.Wire.{Protobuf, IsProtobuf, ok, wire_type_varint, wire_type_length_delimited}
use verfploeter.Schema.Wire.Loop.{Reads-nil}
use verfploeter.Schema.Wire.Sizes.{Counts, Counts-if, Counts-field, Counts-unknown}
use verfploeter.Schema.Wire.Fields.{Merges, Merges-uint32}
use verfploeter.Schema.Wire.Nested.{Codec, OfSome, Merges-singular}
use verfploeter.Schema.Metadata
use verfploeter.Schema.Metadata.{Metadata}
use verfploeter.Schema.Metadata.RoundTrip.{IsMetadata, Metadata-compute_size, Metadata-Codec}
use verfploeter.Schema.Client.{Client, new, compute_size, write_to, merge_field, merge_from}

-- The values fit their fields, and there are no unknown fields.
pub record IsClient {U : Type 0} ⦃u : Default U⦄ (m : Client U) : Type 0 where
  pub index : IsU32 m.index
  pub metadata : OfSome IsMetadata m.metadata
  pub unknown_fields : m.unknown_fields ≡ u.default

module _ {U : Type 0} ⦃u : Default U⦄ (w : Protobuf U) (h : IsProtobuf w) where
  -- `compute_size` is the number of bytes that are written, in 32 bits.
  pub Client-compute_size : (m : Client U) → Counts (compute_size w m) (length (write_to w m))
  unfolding compute_size write_to
  Client-compute_size m =
      let s1 =
        Counts-if (not (m.index == 0)) 0 0 (w.value_size 1 m.index wire_type_varint)
          (w.write_uint32 1 m.index) (omega arith) (h.value_size_uint32 1 m.index) in
      let s2 =
        Counts-field w h (Metadata.compute_size w) (Metadata.write_to w) (Metadata-compute_size w h)
          2 m.metadata _ _ (omega arith) (omega arith) s1 in
      let all = Counts-unknown w h m.unknown_fields _ _ s2 in
      rw (length-append, length-append) (omega arith)

  at : ℕ → Option (Metadata U) → Client U
  at index metadata = record { index = index; metadata = metadata; unknown_fields = u.default }

  write_to-Merges :
      (index : ℕ) (metadata : Option (Metadata U))
      → IsU32 index
      → OfSome IsMetadata metadata
      → Merges w h (merge_field w) new (write_to w (at index metadata)) (at index metadata)
  unfolding at write_to merge_field
  write_to-Merges index metadata index_fits metadata_fits = rw h.no_unknown_fields (
      Merges-uint32 w h (merge_field w) 1 index (λ v. at v none) _ _ (omega arith) (omega arith)
        (λ is. rw (h.read_tag 1 wire_type_varint is (omega arith) (omega arith) (omega arith)))
        index_fits
        (Merges-singular w h (merge_field w) (Metadata-Codec w h) 2 metadata (λ v. at index v) _ _
          (omega arith) (omega arith)
          (λ is.
            rw (
              h.read_tag 2 wire_type_length_delimited is (omega arith) (omega arith) (omega arith)))
          metadata_fits (λ bound. Reads-nil (merge_field w) _)))

  at-eq : (m : Client U) → m.unknown_fields ≡ u.default → at m.index m.metadata ≡ m
  unfolding at
  at-eq m e = ap (λ fields. record m { unknown_fields = fields }) (sym e)

  -- A client whose values fit their fields, without unknown fields, reads back from the bytes that
  -- it writes, if these are fewer than 2^32.
  pub Client-merge_from :
      (m : Client U)
      → IsClient m
      → length (write_to w m) < 2 ^ 32
      → merge_from w new (write_to w m) ≡ ok m
  unfolding merge_from
  Client-merge_from m fits =
      rw (← at-eq m fits.unknown_fields)
        (λ bound. write_to-Merges m.index m.metadata fits.index fits.metadata bound _ (omega arith))

  pub Client-Codec : Codec IsClient new (compute_size w) (write_to w) (merge_from w)
  Client-Codec = record { size = Client-compute_size; round = Client-merge_from }
