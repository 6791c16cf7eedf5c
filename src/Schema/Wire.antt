-- ===== src/Schema/Wire.antt =====
-- What src/schema/verfploeter.rs takes from the crate `protobuf` (2.0), as a parameter: the methods
-- of CodedOutputStream and CodedInputStream and the functions of `protobuf::rt`. A stream is the
-- list of its bytes. A write gives the bytes that it appends (to a vector, where it cannot fail); a
-- read takes its value off the front. `U` is the crate's type UnknownFields; its default has no
-- fields, and is what `clear` leaves.
pub mod Loop
pub mod Chunks
pub mod Progress
pub mod Sizes
pub mod Fields
pub mod Nested
use verfploeter.Prelude.{
  add32, ◌%◌, ℕ, ◌+◌, ◌≤◌, ◌<◌, ◌^◌, ◌≡◌, ◌≢◌, Bool, true, List, [], ◌++◌, String, length, Default,
  ◌==◌, if◌then◌else◌, IsU32, IsU64, zero, suc, ◌∷◌,
}

pub data ProtobufError : Type 0 where
  unexpected_wire_type : ℕ → ProtobufError
  -- The crate's own errors, by number.
  wire_error : ℕ → ProtobufError

-- `out_of_fuel` is no result of the program: it marks a loop of the model that was given too
-- little fuel.
pub data ProtobufResult (A : Type 0) : Type 0 where
  ok : A → ProtobufResult A
  err : ProtobufError → ProtobufResult A
  out_of_fuel : ProtobufResult A

infixl 5 ◌>>=◌ ◌>>◌
abbrev pub ◌>>=◌ : {A B : Type 0} → ProtobufResult A → (A → ProtobufResult B) → ProtobufResult B
ok a >>= f = f a
err e >>= f = err e
out_of_fuel >>= f = out_of_fuel

abbrev pub ◌>>◌ : {B : Type 0} → ProtobufResult (Unit {0}) → ProtobufResult B → ProtobufResult B
m >> k = m >>= λ _. k

-- `wire_format::WireTypeVarint` and `WireTypeLengthDelimited`
abbrev pub wire_type_varint : ℕ
wire_type_varint = 0

abbrev pub wire_type_length_delimited : ℕ
wire_type_length_delimited = 2

-- `if wire_type != expected { return Err(unexpected_wire_type(wire_type)) }`
abbrev pub expect_wire_type : ℕ → ℕ → ProtobufResult (Unit {0})
expect_wire_type expected wire_type =
    if wire_type == expected then ok tt else err (unexpected_wire_type wire_type)

-- `my_size += 1 + compute_raw_varint32_size(len) + len`, given the varint's size.
abbrev pub add_nested_size : ℕ → ℕ → ℕ → ℕ
add_nested_size my_size varint_size len = add32 my_size (add32 (add32 1 varint_size) len)

pub record Protobuf (U : Type 0) : Type 1 where
  pub write_tag : ℕ → ℕ → List ℕ
  pub write_raw_varint32 : ℕ → List ℕ
  pub write_raw_varint64 : ℕ → List ℕ
  pub write_uint32 : ℕ → ℕ → List ℕ
  pub write_uint64 : ℕ → ℕ → List ℕ
  pub write_bool : ℕ → Bool → List ℕ
  pub write_string : ℕ → String → List ℕ
  pub write_bytes : ℕ → List ℕ → List ℕ
  pub write_unknown_fields : U → List ℕ
  -- `value_size(field, value, wire_type)` and its like
  pub value_size : ℕ → ℕ → ℕ → ℕ
  pub bytes_size : ℕ → List ℕ → ℕ
  pub string_size : ℕ → String → ℕ
  pub compute_raw_varint32_size : ℕ → ℕ
  pub unknown_fields_size : U → ℕ
  -- The field number, the wire type and the rest of the stream
  pub read_tag_unpack : List ℕ → ProtobufResult (ℕ × ℕ × List ℕ)
  pub read_uint32 : List ℕ → ProtobufResult (ℕ × List ℕ)
  pub read_uint64 : List ℕ → ProtobufResult (ℕ × List ℕ)
  pub read_bool : List ℕ → ProtobufResult (Bool × List ℕ)
  pub read_bytes : List ℕ → ProtobufResult (List ℕ × List ℕ)
  pub read_singular_proto3_string_into : ℕ → List ℕ → ProtobufResult (String × List ℕ)
  -- These call the message's own `merge_from` (the first argument) on its default value (the
  -- second) and on the part of the stream that its length marks off.
  pub read_message :
      {M : Type 0} → (M → List ℕ → ProtobufResult M) → M → List ℕ → ProtobufResult (M × List ℕ)
  pub read_singular_message_into :
      {M : Type 0} → (M → List ℕ → ProtobufResult M) → M → ℕ → List ℕ → ProtobufResult (M × List ℕ)
  pub read_repeated_message_into :
      {M : Type 0}
      → (M → List ℕ → ProtobufResult M)
      → M
      → ℕ
      → List ℕ
      → List M
      → ProtobufResult (List M × List ℕ)
  pub read_unknown_or_skip_group : ℕ → ℕ → List ℕ → U → ProtobufResult (U × List ℕ)

-- The documented behaviour that the round trips need: reading a tag or a value takes off what
-- writing it appended, and the sizes are the lengths of what is written. Field numbers below 16
-- have tags of one byte.
pub record IsProtobuf {U : Type 0} ⦃u : Default U⦄ (w : Protobuf U) : Type 1 where
  pub length-write_tag : (f t : ℕ) → 0 < f → f < 16 → t < 6 → length (w.write_tag f t) ≡ 1
  pub length-write_raw_varint32 : (v : ℕ) → IsU32 v → length (w.write_raw_varint32 v) ≤ 5
  pub length-write_raw_varint64 : (v : ℕ) → IsU64 v → length (w.write_raw_varint64 v) ≤ 10
  pub read_tag :
      (f t : ℕ) (rest : List ℕ)
      → 0 < f
      → f < 16
      → t < 6
      → w.read_tag_unpack (w.write_tag f t ++ rest) ≡ ok (f, t, rest)
  pub write_uint32_lem :
      (f v : ℕ) → w.write_uint32 f v ≡ w.write_tag f wire_type_varint ++ w.write_raw_varint32 v
  pub write_uint64_lem :
      (f v : ℕ) → w.write_uint64 f v ≡ w.write_tag f wire_type_varint ++ w.write_raw_varint64 v
  pub write_bytes_lem :
      (f : ℕ) (v : List ℕ)
      → w.write_bytes f v
        ≡ w.write_tag f wire_type_length_delimited ++ (w.write_raw_varint32 (length v) ++ v)
  pub read_uint32_lem :
      (v : ℕ) (rest : List ℕ)
      → IsU32 v
      → w.read_uint32 (w.write_raw_varint32 v ++ rest) ≡ ok (v, rest)
  pub read_uint64_lem :
      (v : ℕ) (rest : List ℕ)
      → IsU64 v
      → w.read_uint64 (w.write_raw_varint64 v ++ rest) ≡ ok (v, rest)
  pub read_bytes_lem :
      (v rest : List ℕ)
      → IsU32 (length v)
      → w.read_bytes (w.write_raw_varint32 (length v) ++ (v ++ rest)) ≡ ok (v, rest)
  pub read_singular_message :
      {M : Type 0} (merge : M → List ℕ → ProtobufResult M) (new m : M) (body rest : List ℕ)
      → IsU32 (length body)
      → merge new body ≡ ok m
      → w.read_singular_message_into merge new wire_type_length_delimited
          (w.write_raw_varint32 (length body) ++ (body ++ rest))
        ≡ ok (m, rest)
  pub read_message_lem :
      {M : Type 0} (merge : M → List ℕ → ProtobufResult M) (new m : M) (body rest : List ℕ)
      → IsU32 (length body)
      → merge new body ≡ ok m
      → w.read_message merge new (w.write_raw_varint32 (length body) ++ (body ++ rest))
        ≡ ok (m, rest)
  pub read_repeated_message :
      {M : Type 0} (merge : M → List ℕ → ProtobufResult M) (new m : M) (ms : List M)
      (body rest : List ℕ)
      → IsU32 (length body)
      → merge new body ≡ ok m
      → w.read_repeated_message_into merge new wire_type_length_delimited
          (w.write_raw_varint32 (length body) ++ (body ++ rest))
          ms
        ≡ ok (ms ++ (m ∷ []), rest)
  -- The field of a Boolean is written for `true` alone.
  pub length-write_bool : (f : ℕ) → 0 < f → f < 16 → length (w.write_bool f true) ≡ 2
  pub write_bool_lem :
      (f : ℕ) → w.write_bool f true ≡ w.write_tag f wire_type_varint ++ w.write_raw_varint32 1
  pub read_bool_lem :
      (rest : List ℕ) → w.read_bool (w.write_raw_varint32 1 ++ rest) ≡ ok (true, rest)
  -- The length of a text's UTF-8, and the UTF-8.
  pub string_body : String → List ℕ
  pub write_string_lem :
      (f : ℕ) (v : String)
      → w.write_string f v ≡ w.write_tag f wire_type_length_delimited ++ string_body v
  pub read_string_lem :
      (v : String) (rest : List ℕ)
      → IsU32 (length (string_body v))
      → w.read_singular_proto3_string_into wire_type_length_delimited (string_body v ++ rest)
        ≡ ok (v, rest)
  pub value_size_uint32 :
      (f v : ℕ) → w.value_size f v wire_type_varint ≡ length (w.write_uint32 f v) % 2 ^ 32
  pub value_size_uint64 :
      (f v : ℕ) → w.value_size f v wire_type_varint ≡ length (w.write_uint64 f v) % 2 ^ 32
  pub bytes_size_lem : (f : ℕ) (v : List ℕ) → w.bytes_size f v ≡ length (w.write_bytes f v) % 2 ^ 32
  pub string_size_lem :
      (f : ℕ) (v : String) → w.string_size f v ≡ length (w.write_string f v) % 2 ^ 32
  pub varint32_size : (v : ℕ) → w.compute_raw_varint32_size v ≡ length (w.write_raw_varint32 v)
  pub no_unknown_fields : w.write_unknown_fields u.default ≡ []
  pub unknown_fields_size_lem :
      (fields : U) → w.unknown_fields_size fields ≡ length (w.write_unknown_fields fields) % 2 ^ 32

-- What the termination of `merge_from` needs: no read gives bytes back, a tag takes one byte at
-- least, and the crate's functions return whenever the message's own merge does.
abbrev pub Shrinks : {A : Type 0} → List ℕ → ProtobufResult (A × List ℕ) → Type 0
Shrinks is (ok (a, rest)) = length rest ≤ length is
Shrinks is (err e) = Unit {0}
Shrinks is out_of_fuel = ⊥

pub record IsReader {U : Type 0} (w : Protobuf U) : Type 1 where
  pub tag_shrinks :
      (is : List ℕ)
      → (w.read_tag_unpack is ≢ out_of_fuel)
        × ((f t : ℕ) (rest : List ℕ)
            → w.read_tag_unpack is ≡ ok (f, t, rest)
            → length rest < length is)
  pub uint32_shrinks : (is : List ℕ) → Shrinks is (w.read_uint32 is)
  pub uint64_shrinks : (is : List ℕ) → Shrinks is (w.read_uint64 is)
  pub bytes_shrinks : (is : List ℕ) → Shrinks is (w.read_bytes is)
  pub bool_shrinks : (is : List ℕ) → Shrinks is (w.read_bool is)
  pub string_shrinks : (t : ℕ) (is : List ℕ) → Shrinks is (w.read_singular_proto3_string_into t is)
  pub read_message_shrinks :
      {M : Type 0} (merge : M → List ℕ → ProtobufResult M) (new : M) (is : List ℕ)
      → ((body : List ℕ) → merge new body ≢ out_of_fuel)
      → Shrinks is (w.read_message merge new is)
  pub repeated_shrinks :
      {M : Type 0} (merge : M → List ℕ → ProtobufResult M) (new : M) (t : ℕ) (is : List ℕ)
      (ms : List M)
      → ((body : List ℕ) → merge new body ≢ out_of_fuel)
      → Shrinks is (w.read_repeated_message_into merge new t is ms)
  pub message_shrinks :
      {M : Type 0} (merge : M → List ℕ → ProtobufResult M) (new : M) (t : ℕ) (is : List ℕ)
      → ((body : List ℕ) → merge new body ≢ out_of_fuel)
      → Shrinks is (w.read_singular_message_into merge new t is)
  pub unknown_shrinks :
      (f t : ℕ) (is : List ℕ) (fields : U) → Shrinks is (w.read_unknown_or_skip_group f t is fields)
