-- ===== src/Schema/Task.antt =====
-- The message `Task` of schema/verfploeter.proto, in src/schema/verfploeter.rs: the struct with its
-- accessors, and its part of `protobuf::Message`. `cached_size` is left out: it holds what
-- `compute_size` returned last, and `write_to_bytes` calls that first.
pub mod RoundTrip
pub mod Termination
use verfploeter.Prelude.{
  ℕ, Bool, true, false, not, List, [], ◌++◌, Option, none, some, Default, length, ◌==◌,
  if◌then◌else◌, add32, ◌&&◌, String, ◌∷◌,
}
use verfploeter.Schema.Wire.{
  Protobuf, ProtobufResult, add_nested_size, expect_wire_type, ok, wire_type_length_delimited,
  wire_type_varint, ◌>>=◌, ◌>>◌,
}
use verfploeter.Schema.Wire.Loop.{merge_loop}
use verfploeter.Schema.Ping
use verfploeter.Schema.Ping.{Ping}
use verfploeter.Schema.Empty
use verfploeter.Schema.Empty.{Empty}

pub data TaskData (U : Type 0) : Type 0 where
  ping : (Ping U) → TaskData U
  empty : (Empty U) → TaskData U

pub record Task (U : Type 0) : Type 0 where
  pub task_id : ℕ
  pub kind : Option (TaskData U)
  pub unknown_fields : U

module _ {U : Type 0} ⦃u : Default U⦄ where
  abbrev pub new : Task U
  new = record { task_id = 0; kind = none; unknown_fields = u.default }

  abbrev pub clear_task_id : Task U → Task U
  clear_task_id m = record m { task_id = 0 }

  abbrev pub set_task_id : ℕ → Task U → Task U
  set_task_id v m = record m { task_id = v }

  abbrev pub get_task_id : Task U → ℕ
  get_task_id m = m.task_id

  abbrev pub clear_ping : Task U → Task U
  clear_ping m = record m { kind = none }

  abbrev pub has_ping : Task U → Bool
  has_ping m = elim m.kind [ some (ping v) ↦ true | _ ↦ false ]

  abbrev pub set_ping : Ping U → Task U → Task U
  set_ping v m = record m { kind = some (ping v) }

  abbrev pub get_ping : Task U → Ping U
  get_ping m = elim m.kind [ some (ping v) ↦ v | _ ↦ Ping.new ]

  abbrev pub take_ping : Task U → Ping U × Task U
  take_ping m = if has_ping m then (get_ping m, record m { kind = none }) else (Ping.new, m)

  abbrev pub clear_empty : Task U → Task U
  clear_empty m = record m { kind = none }

  abbrev pub has_empty : Task U → Bool
  has_empty m = elim m.kind [ some (empty v) ↦ true | _ ↦ false ]

  abbrev pub set_empty : Empty U → Task U → Task U
  set_empty v m = record m { kind = some (empty v) }

  abbrev pub get_empty : Task U → Empty U
  get_empty m = elim m.kind [ some (empty v) ↦ v | _ ↦ Empty.new ]

  abbrev pub take_empty : Task U → Empty U × Task U
  take_empty m = if has_empty m then (get_empty m, record m { kind = none }) else (Empty.new, m)

  -- A mutable borrow: the value that it refers to, and the message with the value that it is left
  -- with. An absent message is made first.
  abbrev pub mut_ping : Task U → Ping U × (Ping U → Task U)
  mut_ping m = (get_ping m, λ v. record m { kind = some (ping v) })

  abbrev pub mut_empty : Task U → Empty U × (Empty U → Task U)
  mut_empty m = (get_empty m, λ v. record m { kind = some (empty v) })

  unfoldable pub is_initialized : Task U → Bool
  is_initialized m = elim m.kind [
    | some (ping v) ↦ Ping.is_initialized v
    | some (empty v) ↦ Empty.is_initialized v
    | none ↦ true
  ]

  abbrev pub clear : Task U → Task U
  clear m = record (clear_empty (clear_ping (clear_task_id m))) { unknown_fields = u.default }

  abbrev pub default_instance : Task U
  default_instance = new

module _ {U : Type 0} ⦃u : Default U⦄ (w : Protobuf U) where
  unfoldable pub compute_size : Task U → ℕ
  compute_size m =
      let s1 : ℕ =
        if not (m.task_id == 0) then add32 0 (w.value_size 1 m.task_id wire_type_varint) else 0 in
      let s2 : ℕ = elim m.kind [
        | some (ping v) ↦
            add_nested_size s1 (w.compute_raw_varint32_size (Ping.compute_size w v))
              (Ping.compute_size w v)
        | some (empty v) ↦
            add_nested_size s1 (w.compute_raw_varint32_size (Empty.compute_size w v))
              (Empty.compute_size w v)
        | none ↦ s1
      ] in
      add32 s2 (w.unknown_fields_size m.unknown_fields)

  unfoldable pub write_to : Task U → List ℕ
  write_to m =
      (if not (m.task_id == 0) then w.write_uint32 1 m.task_id else [])
      ++ ((elim m.kind [
        | some (ping v) ↦
            w.write_tag 2 wire_type_length_delimited
            ++ (w.write_raw_varint32 (Ping.compute_size w v) ++ Ping.write_to w v)
        | some (empty v) ↦
            w.write_tag 3 wire_type_length_delimited
            ++ (w.write_raw_varint32 (Empty.compute_size w v) ++ Empty.write_to w v)
        | none ↦ []
      ])
          ++ w.write_unknown_fields m.unknown_fields)

  -- The field of the given number, from the stream behind its tag.
  read_field : Task U → ℕ → ℕ → List ℕ → ProtobufResult (Task U × List ℕ)
  read_field m field_number wire_type rest =
      if field_number == 1
      then (do
        expect_wire_type wire_type_varint wire_type
        (v, rest_of_stream) ← w.read_uint32 rest
        ok (record m { task_id = v }, rest_of_stream))
      else (if field_number == 2
          then (do
            expect_wire_type wire_type_length_delimited wire_type
            (v, rest_of_stream) ← w.read_message (Ping.merge_from w) Ping.new rest
            ok (record m { kind = some (ping v) }, rest_of_stream))
          else (if field_number == 3
              then (do
                expect_wire_type wire_type_length_delimited wire_type
                (v, rest_of_stream) ← w.read_message (Empty.merge_from w) Empty.new rest
                ok (record m { kind = some (empty v) }, rest_of_stream))
              else ((do
                (v, rest_of_stream) ←
                    w.read_unknown_or_skip_group field_number wire_type rest m.unknown_fields
                ok (record m { unknown_fields = v }, rest_of_stream)))))

  -- One round of the loop: a tag, and the field that it announces.
  unfoldable pub merge_field : Task U → List ℕ → ProtobufResult (Task U × List ℕ)
  unfolding read_field
  merge_field m is = do
    (field_number, wire_type, rest) ← w.read_tag_unpack is
    read_field m field_number wire_type rest

  unfoldable pub merge_from : Task U → List ℕ → ProtobufResult (Task U)
  unfolding merge_loop
  merge_from m is = merge_loop merge_field (length is) m is
