-- ===== src/Schema/Wire/Chunks.antt =====
-- How long the written fields are.
use verfploeter.Prelude.{
  ℕ, ◌+◌, ◌≤◌, ◌<◌, ◌≡◌, List, Default, length, length-append, arith, IsU32, IsU64,
}
use verfploeter.Schema.Wire.{Protobuf, IsProtobuf, wire_type_varint, wire_type_length_delimited}

module _ {U : Type 0} ⦃u : Default U⦄ (w : Protobuf U) (h : IsProtobuf w) where
  pub no_unknown_fields_size : w.unknown_fields_size u.default ≡ 0
  no_unknown_fields_size = rw (h.unknown_fields_size_lem u.default, h.no_unknown_fields)

  pub length-write_uint32 :
      (f v : ℕ)
      → 0 < f
      → f < 16
      → IsU32 v
      → (0 < length (w.write_uint32 f v)) × (length (w.write_uint32 f v) ≤ 6)
  length-write_uint32 f v pos small r =
      rw (h.write_uint32_lem f v, length-append)
        (omega (
          arith,
          h.length-write_tag f wire_type_varint pos small (omega arith),
          h.length-write_raw_varint32 v r,
        ))

  pub length-write_uint64 :
      (f v : ℕ)
      → 0 < f
      → f < 16
      → IsU64 v
      → (0 < length (w.write_uint64 f v)) × (length (w.write_uint64 f v) ≤ 11)
  length-write_uint64 f v pos small r =
      rw (h.write_uint64_lem f v, length-append)
        (omega (
          arith,
          h.length-write_tag f wire_type_varint pos small (omega arith),
          h.length-write_raw_varint64 v r,
        ))

  pub length-write_bytes :
      (f : ℕ) (v : List ℕ)
      → 0 < f
      → f < 16
      → IsU32 (length v)
      → (0 < length (w.write_bytes f v)) × (length (w.write_bytes f v) ≤ length v + 6)
  length-write_bytes f v pos small r =
      rw (h.write_bytes_lem f v, length-append, length-append)
        (omega (
          arith,
          h.length-write_tag f wire_type_length_delimited pos small (omega arith),
          h.length-write_raw_varint32 (length v) r,
        ))
