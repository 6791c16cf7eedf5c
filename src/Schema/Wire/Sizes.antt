-- ===== src/Schema/Wire/Sizes.antt =====
-- `compute_size` field by field: each adds the number of bytes that it writes, in 32 bits.
use verfploeter.Prelude.{
  ◌<◌, ℕ, ◌+◌, ◌%◌, ◌^◌, ◌≡◌, Bool, true, false, List, [], ◌∷◌, ◌++◌, Option, none, some, Default,
  length, length-append, arith, if◌then◌else◌, add32,
}
use verfploeter.Schema.Wire.{Protobuf, IsProtobuf, add_nested_size, wire_type_length_delimited}

-- A size that stands for so many bytes.
abbrev pub Counts : ℕ → ℕ → Type 0
Counts size bytes = size ≡ bytes % 2 ^ 32

pub Counts-if :
    (present : Bool) (size bytes x : ℕ) (chunk : List ℕ)
    → Counts size bytes
    → Counts x (length chunk)
    → Counts
        (if present then add32 size x else size)
        (bytes + length (if present then chunk else []))
Counts-if true size bytes x chunk h e = omega arith
Counts-if false size bytes x chunk h e = omega arith

module _ {U : Type 0} ⦃u : Default U⦄ (w : Protobuf U) (h : IsProtobuf w) where
  pub Counts-bool :
      (f : ℕ) (v : Bool) (size bytes : ℕ)
      → 0 < f
      → f < 16
      → Counts size bytes
      → Counts
          (if v then add32 size 2 else size)
          (bytes + length (if v then w.write_bool f v else []))
  Counts-bool f false size bytes pos small e = omega arith
  Counts-bool f true size bytes pos small e = omega (arith, h.length-write_bool f pos small)

  pub Counts-nested :
      (f size bytes len : ℕ) (body : List ℕ)
      → 0 < f
      → f < 16
      → Counts size bytes
      → Counts len (length body)
      → Counts (add_nested_size size (w.compute_raw_varint32_size len) len) (
          bytes
          + length (w.write_tag f wire_type_length_delimited ++ (w.write_raw_varint32 len ++ body)))
  Counts-nested f size bytes len body pos small e n =
      rw (length-append, length-append)
        (omega (
          arith,
          h.varint32_size len,
          h.length-write_tag f wire_type_length_delimited pos small (omega arith),
        ))

  module _ {N : Type 0} (compute_size : N → ℕ) (write_to : N → List ℕ)
      (counts : (a : N) → Counts (compute_size a) (length (write_to a))) where
    -- The field of a message, which may be missing.
    pub Counts-field :
        (f : ℕ) (o : Option N) (size bytes : ℕ)
        → 0 < f
        → f < 16
        → Counts size bytes
        → Counts
            (elim o [
              | some v ↦
                  add_nested_size size
                    (w.compute_raw_varint32_size (compute_size v))
                    (compute_size v)
              | none ↦ size
            ])
            (bytes
              + length (elim o [
                | some v ↦
                    w.write_tag f wire_type_length_delimited
                    ++ (w.write_raw_varint32 (compute_size v) ++ write_to v)
                | none ↦ []
              ]))
    Counts-field f none size bytes pos small e = omega arith
    Counts-field f (some v) size bytes pos small e =
        Counts-nested f size bytes (compute_size v) (write_to v) pos small e (counts v)

    -- The loop over a list of messages.
    pub Counts-repeated :
        (f : ℕ) (sized : ℕ → List N → ℕ) (written : List N → List ℕ)
        → 0 < f
        → f < 16
        → ((size : ℕ) → sized size [] ≡ size)
        → ((size : ℕ) (a : N) (more : List N)
            → sized size (a ∷ more)
              ≡ sized
                  (add_nested_size size
                    (w.compute_raw_varint32_size (compute_size a))
                    (compute_size a))
                  more)
        → (written [] ≡ [])
        → ((a : N) (more : List N)
            → written (a ∷ more)
              ≡ w.write_tag f wire_type_length_delimited
                ++ (w.write_raw_varint32 (compute_size a) ++ (write_to a ++ written more)))
        → (todo : List N) (size bytes : ℕ) → Counts size bytes
        → Counts (sized size todo) (bytes + length (written todo))
    Counts-repeated f sized written pos small s_nil s_cons w_nil w_cons [] size bytes e =
        rw (s_nil size, w_nil) (omega arith)
    Counts-repeated f sized written pos small s_nil s_cons w_nil w_cons (a ∷ todo) size bytes e =
        let varint = w.write_raw_varint32 (compute_size a) in
        let tag = w.write_tag f wire_type_length_delimited in
        let lengths : bytes + length (tag ++ (varint ++ write_to a)) + length (written todo)
            ≡ bytes + length (tag ++ (varint ++ (write_to a ++ written todo))) =
          rw (length-append, length-append, length-append, length-append, length-append)
            (omega arith) in
        rw (s_cons size a todo, w_cons a todo, ← lengths)
          (Counts-repeated f sized written pos small s_nil s_cons w_nil w_cons todo _ _
            (Counts-nested f size bytes (compute_size a) (write_to a) pos small e (counts a)))

  -- The unknown fields, at the end.
  pub Counts-unknown :
      (fields : U) (size bytes : ℕ)
      → Counts size bytes
      → Counts
          (add32 size (w.unknown_fields_size fields))
          (bytes + length (w.write_unknown_fields fields))
  Counts-unknown fields size bytes e = omega (arith, h.unknown_fields_size_lem fields)
