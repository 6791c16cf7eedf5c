-- ===== src/Schema/Address/RoundTrip.antt =====
-- Writing an address and merging it into the default value.
use verfploeter.Prelude.{
  ℕ, ◌+◌, ◌<◌, ◌^◌, ◌≡◌, List, [], ◌++◌, Option, none, some, Default, length, append_assoc,
  append-nil, arith, IsU32,
}
use verfploeter.Schema.Wire.{Protobuf, IsProtobuf, ok, wire_type_varint, wire_type_length_delimited}
use verfploeter.Schema.Wire.Loop.{Reads, Reads-nil, Reads-chunk}
use verfploeter.Schema.Wire.Chunks.{no_unknown_fields_size, length-write_uint32, length-write_bytes}
use verfploeter.Schema.Address.{
  Address, AddressValue, v4, v6, new, compute_size, write_to, merge_field, merge_from,
}

abbrev IsValue : {U : Type 0} → Option (AddressValue U) → Type 0
IsValue none = Unit {0}
IsValue (some (v4 v)) = IsU32 v
IsValue (some (v6 v)) = length v + 20 < 2 ^ 32

-- The values fit their fields, and there are no unknown fields.
abbrev pub IsAddress : {U : Type 0} ⦃u : Default U⦄ → Address U → Type 0
IsAddress ⦃u⦄ m = IsValue m.value × (m.unknown_fields ≡ u.default)

module _ {U : Type 0} ⦃u : Default U⦄ (w : Protobuf U) (h : IsProtobuf w) where
  v4_round :
      (m : Address U) (v : ℕ) (rest : List ℕ)
      → IsU32 v
      → merge_field w m (w.write_uint32 1 v ++ rest) ≡ ok (record m { value = some (v4 v) }, rest)
  unfolding merge_field
  v4_round m v rest r = rw (
    h.write_uint32_lem 1 v,
    append_assoc,
    h.read_tag 1 wire_type_varint _ (omega arith) (omega arith) (omega arith),
    h.read_uint32_lem v rest r,
  )

  v6_round :
      (m : Address U) (v rest : List ℕ)
      → IsU32 (length v)
      → merge_field w m (w.write_bytes 2 v ++ rest) ≡ ok (record m { value = some (v6 v) }, rest)
  unfolding merge_field
  v6_round m v rest r = rw (
    h.write_bytes_lem 2 v,
    append_assoc,
    h.read_tag 2 wire_type_length_delimited _ (omega arith) (omega arith) (omega arith),
    append_assoc,
    h.read_bytes_lem v rest r,
  )

  at : Option (AddressValue U) → Address U
  at value = record { value = value; unknown_fields = u.default }

  write_to-Reads :
      (value : Option (AddressValue U))
      → IsValue value
      → Reads (merge_field w) new (write_to w (at value)) (at value)
  unfolding at write_to
  write_to-Reads none r = rw h.no_unknown_fields (Reads-nil (merge_field w) new)
  write_to-Reads (some (v4 v)) r = rw h.no_unknown_fields (
      Reads-chunk (merge_field w) new (at (some (v4 v))) _ _ []
        (length-write_uint32 w h 1 v (omega arith) (omega arith) r).0 (v4_round new v [] r)
        (Reads-nil (merge_field w) _))
  write_to-Reads (some (v6 v)) r = rw h.no_unknown_fields (
      Reads-chunk (merge_field w) new (at (some (v6 v))) _ _ []
        (length-write_bytes w h 2 v (omega arith) (omega arith) (omega arith)).0
        (v6_round new v [] (omega arith)) (Reads-nil (merge_field w) _))

  at-eq : (m : Address U) → m.unknown_fields ≡ u.default → at m.value ≡ m
  unfolding at
  at-eq m e = ground arith

  -- An address in range, without unknown fields, reads back from what it writes.
  pub merge_from-write_to : (m : Address U) → IsAddress m → merge_from w new (write_to w m) ≡ ok m
  unfolding merge_from
  merge_from-write_to m r =
      rw (← at-eq m r.1)
        (write_to-Reads m.value r.0 (length (write_to w (at m.value))) (omega arith))

  at_size :
      (value : Option (AddressValue U))
      → IsValue value
      → (compute_size w (at value) ≡ length (write_to w (at value)))
        × (length (write_to w (at value)) < 2 ^ 32)
  unfolding at compute_size write_to
  at_size none r = rw (h.no_unknown_fields, no_unknown_fields_size w h) (omega arith)
  at_size (some (v4 v)) r =
      rw (h.no_unknown_fields, no_unknown_fields_size w h, append-nil, h.value_size_uint32 1 v)
        (omega (arith, length-write_uint32 w h 1 v (omega arith) (omega arith) r))
  at_size (some (v6 v)) r =
      rw (h.no_unknown_fields, no_unknown_fields_size w h, append-nil, h.bytes_size_lem 2 v)
        (omega (arith, length-write_bytes w h 2 v (omega arith) (omega arith) (omega arith)))

  -- For an address in range, without unknown fields, `compute_size` is the number of bytes that
  -- `write_to` writes, and fits 32 bits.
  pub compute_size-write_to :
      (m : Address U)
      → IsAddress m
      → (compute_size w m ≡ length (write_to w m)) × (length (write_to w m) < 2 ^ 32)
  compute_size-write_to m r = rw (← at-eq m r.1) (at_size m.value r.0)
