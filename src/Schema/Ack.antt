-- ===== src/Schema/Ack.antt =====
-- The message `Ack` of schema/verfploeter.proto, in src/schema/verfploeter.rs: the struct with its
-- accessors, and its part of `protobuf::Message`. `cached_size` is left out: it holds what
-- `compute_size` returned last, and `write_to_bytes` calls that first.
pub mod RoundTrip
pub mod Termination
use text.Mathlib.Text.{◌==◌ as str_eq}
use verfploeter.Prelude.{
  ℕ, Bool, false, not, String, List, [], ◌++◌, Default, length, ◌==◌, if◌then◌else◌, add32, true,
  ◌&&◌, ◌∷◌,
}
use verfploeter.Schema.Wire.{
  Protobuf, ProtobufResult, expect_wire_type, ok, wire_type_varint, ◌>>=◌, ◌>>◌,
}
use verfploeter.Schema.Wire.Loop.{merge_loop}

pub record Ack (U : Type 0) : Type 0 where
  pub task_id : ℕ
  pub success : Bool
  pub error_message : String
  pub unknown_fields : U

module _ {U : Type 0} ⦃u : Default U⦄ where
  abbrev pub new : Ack U
  new = record { task_id = 0; success = false; error_message = ""; unknown_fields = u.default }

  abbrev pub clear_task_id : Ack U → Ack U
  clear_task_id m = record m { task_id = 0 }

  abbrev pub set_task_id : ℕ → Ack U → Ack U
  set_task_id v m = record m { task_id = v }

  abbrev pub get_task_id : Ack U → ℕ
  get_task_id m = m.task_id

  abbrev pub clear_success : Ack U → Ack U
  clear_success m = record m { success = false }

  abbrev pub set_success : Bool → Ack U → Ack U
  set_success v m = record m { success = v }

  abbrev pub get_success : Ack U → Bool
  get_success m = m.success

  abbrev pub clear_error_message : Ack U → Ack U
  clear_error_message m = record m { error_message = "" }

  abbrev pub set_error_message : String → Ack U → Ack U
  set_error_message v m = record m { error_message = v }

  abbrev pub take_error_message : Ack U → String × Ack U
  take_error_message m = (m.error_message, record m { error_message = "" })

  abbrev pub get_error_message : Ack U → String
  get_error_message m = m.error_message

  -- A mutable borrow: the value that it refers to, and the message with the value that it is left
  -- with. An absent message is made first.
  abbrev pub mut_error_message : Ack U → String × (String → Ack U)
  mut_error_message m = (m.error_message, λ v. record m { error_message = v })

  unfoldable pub is_initialized : Ack U → Bool
  is_initialized m = true

  abbrev pub clear : Ack U → Ack U
  clear m = record (clear_error_message (clear_success (clear_task_id m))) {
    unknown_fields = u.default;
  }

  abbrev pub default_instance : Ack U
  default_instance = new

module _ {U : Type 0} ⦃u : Default U⦄ (w : Protobuf U) where
  unfoldable pub compute_size : Ack U → ℕ
  compute_size m =
      let s1 : ℕ =
        if not (m.task_id == 0) then add32 0 (w.value_size 1 m.task_id wire_type_varint) else 0 in
      let s2 : ℕ = if m.success then add32 s1 2 else s1 in
      let s3 : ℕ =
        if not (str_eq m.error_message "")
        then add32 s2 (w.string_size 3 m.error_message)
        else s2 in
      add32 s3 (w.unknown_fields_size m.unknown_fields)

  unfoldable pub write_to : Ack U → List ℕ
  write_to m =
      (if not (m.task_id == 0) then w.write_uint32 1 m.task_id else [])
      ++ ((if m.success then w.write_bool 2 m.success else [])
          ++ ((if not (str_eq m.error_message "") then w.write_string 3 m.error_message else [])
              ++ w.write_unknown_fields m.unknown_fields))

  -- The field of the given number, from the stream behind its tag.
  read_field : Ack U → ℕ → ℕ → List ℕ → ProtobufResult (Ack U × List ℕ)
  read_field m field_number wire_type rest =
      if field_number == 1
      then (do
        expect_wire_type wire_type_varint wire_type
        (v, rest_of_stream) ← w.read_uint32 rest
        ok (record m { task_id = v }, rest_of_stream))
      else (if field_number == 2
          then (do
            expect_wire_type wire_type_varint wire_type
            (v, rest_of_stream) ← w.read_bool rest
            ok (record m { success = v }, rest_of_stream))
          else (if field_number == 3
              then (do
                (v, rest_of_stream) ← w.read_singular_proto3_string_into wire_type rest
                ok (record m { error_message = v }, rest_of_stream))
              else ((do
                (v, rest_of_stream) ←
                    w.read_unknown_or_skip_group field_number wire_type rest m.unknown_fields
                ok (record m { unknown_fields = v }, rest_of_stream)))))

  -- One round of the loop: a tag, and the field that it announces.
  unfoldable pub merge_field : Ack U → List ℕ → ProtobufResult (Ack U × List ℕ)
  unfolding read_field
  merge_field m is = do
    (field_number, wire_type, rest) ← w.read_tag_unpack is
    read_field m field_number wire_type rest

  unfoldable pub merge_from : Ack U → List ℕ → ProtobufResult (Ack U)
  unfolding merge_loop
  merge_from m is = merge_loop merge_field (length is) m is
