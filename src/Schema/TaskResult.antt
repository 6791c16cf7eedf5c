-- ===== src/Schema/TaskResult.antt =====
-- The message `TaskResult` of schema/verfploeter.proto, in src/schema/verfploeter.rs: the struct
-- with its accessors, and its part of `protobuf::Message`. `cached_size` is left out: it holds what
-- `compute_size` returned last, and `write_to_bytes` calls that first.
pub mod RoundTrip
pub mod Termination
use verfploeter.Prelude.{
  ℕ, Bool, true, false, not, List, [], ◌∷◌, ◌++◌, Option, none, some, Default, length, ◌==◌,
  if◌then◌else◌, add32, ◌&&◌, String,
}
use verfploeter.Schema.Wire.{
  Protobuf, ProtobufResult, add_nested_size, expect_wire_type, ok, wire_type_length_delimited,
  wire_type_varint, ◌>>=◌, ◌>>◌,
}
use verfploeter.Schema.Wire.Loop.{merge_loop}
use verfploeter.Schema.Client
use verfploeter.Schema.Client.{Client}
use verfploeter.Schema.Result
use verfploeter.Schema.Result.{Result}

pub record TaskResult (U : Type 0) : Type 0 where
  pub task_id : ℕ
  pub client : Option (Client U)
  pub result_list : List (Result U)
  pub is_finished : Bool
  pub unknown_fields : U

module _ {U : Type 0} ⦃u : Default U⦄ where
  abbrev pub new : TaskResult U
  new = record {
    task_id = 0;
    client = none;
    result_list = [];
    is_finished = false;
    unknown_fields = u.default;
  }

  abbrev pub clear_task_id : TaskResult U → TaskResult U
  clear_task_id m = record m { task_id = 0 }

  abbrev pub set_task_id : ℕ → TaskResult U → TaskResult U
  set_task_id v m = record m { task_id = v }

  abbrev pub get_task_id : TaskResult U → ℕ
  get_task_id m = m.task_id

  abbrev pub clear_client : TaskResult U → TaskResult U
  clear_client m = record m { client = none }

  abbrev pub has_client : TaskResult U → Bool
  has_client m = elim m.client [ some v ↦ true | none ↦ false ]

  abbrev pub set_client : Client U → TaskResult U → TaskResult U
  set_client v m = record m { client = some v }

  abbrev pub take_client : TaskResult U → Client U × TaskResult U
  take_client m = (elim m.client [ some v ↦ v | none ↦ Client.new ], record m { client = none })

  abbrev pub get_client : TaskResult U → Client U
  get_client m = elim m.client [ some v ↦ v | none ↦ Client.new ]

  abbrev pub clear_result_list : TaskResult U → TaskResult U
  clear_result_list m = record m { result_list = [] }

  abbrev pub set_result_list : List (Result U) → TaskResult U → TaskResult U
  set_result_list v m = record m { result_list = v }

  abbrev pub take_result_list : TaskResult U → List (Result U) × TaskResult U
  take_result_list m = (m.result_list, record m { result_list = [] })

  abbrev pub get_result_list : TaskResult U → List (Result U)
  get_result_list m = m.result_list

  abbrev pub clear_is_finished : TaskResult U → TaskResult U
  clear_is_finished m = record m { is_finished = false }

  abbrev pub set_is_finished : Bool → TaskResult U → TaskResult U
  set_is_finished v m = record m { is_finished = v }

  abbrev pub get_is_finished : TaskResult U → Bool
  get_is_finished m = m.is_finished

  -- A mutable borrow: the value that it refers to, and the message with the value that it is left
  -- with. An absent message is made first.
  abbrev pub mut_client : TaskResult U → Client U × (Client U → TaskResult U)
  mut_client m = (get_client m, λ v. record m { client = some v })

  abbrev pub mut_result_list : TaskResult U → List (Result U) × (List (Result U) → TaskResult U)
  mut_result_list m = (m.result_list, λ v. record m { result_list = v })

  unfoldable pub result_list_initialized : List (Result U) → Bool
  result_list_initialized [] = true
  result_list_initialized (v ∷ vs) = Result.is_initialized v && result_list_initialized vs

  unfoldable pub is_initialized : TaskResult U → Bool
  unfolding result_list_initialized
  is_initialized m =
      (elim m.client [ some v ↦ Client.is_initialized v | none ↦ true ])
      && (result_list_initialized m.result_list)

  abbrev pub clear : TaskResult U → TaskResult U
  clear m = record (clear_is_finished (clear_result_list (clear_client (clear_task_id m)))) {
    unknown_fields = u.default;
  }

  abbrev pub default_instance : TaskResult U
  default_instance = new

module _ {U : Type 0} ⦃u : Default U⦄ (w : Protobuf U) where
  result_list_size : ℕ → List (Result U) → ℕ
  result_list_size my_size [] = my_size
  result_list_size my_size (v ∷ vs) =
      let len = Result.compute_size w v in
      result_list_size (add_nested_size my_size (w.compute_raw_varint32_size len) len) vs

  write_result_list : List (Result U) → List ℕ
  write_result_list [] = []
  write_result_list (v ∷ vs) =
      w.write_tag 3 wire_type_length_delimited
      ++ (w.write_raw_varint32 (Result.compute_size w v)
          ++ (Result.write_to w v ++ write_result_list vs))

  unfoldable pub compute_size : TaskResult U → ℕ
  unfolding result_list_size
  compute_size m =
      let s1 : ℕ =
        if not (m.task_id == 0) then add32 0 (w.value_size 1 m.task_id wire_type_varint) else 0 in
      let s2 : ℕ = elim m.client [
        | some v ↦
            add_nested_size s1 (w.compute_raw_varint32_size (Client.compute_size w v))
              (Client.compute_size w v)
        | none ↦ s1
      ] in
      let s3 : ℕ = result_list_size s2 m.result_list in
      let s4 : ℕ = if m.is_finished then add32 s3 2 else s3 in
      add32 s4 (w.unknown_fields_size m.unknown_fields)

  unfoldable pub write_to : TaskResult U → List ℕ
  unfolding write_result_list
  write_to m =
      (if not (m.task_id == 0) then w.write_uint32 1 m.task_id else [])
      ++ ((elim m.client [
        | some v ↦
            w.write_tag 2 wire_type_length_delimited
            ++ (w.write_raw_varint32 (Client.compute_size w v) ++ Client.write_to w v)
        | none ↦ []
      ])
          ++ (write_result_list m.result_list
              ++ ((if m.is_finished then w.write_bool 4 m.is_finished else [])
                  ++ w.write_unknown_fields m.unknown_fields)))

  -- The field of the given number, from the stream behind its tag.
  read_field : TaskResult U → ℕ → ℕ → List ℕ → ProtobufResult (TaskResult U × List ℕ)
  read_field m field_number wire_type rest =
      if field_number == 1
      then (do
        expect_wire_type wire_type_varint wire_type
        (v, rest_of_stream) ← w.read_uint32 rest
        ok (record m { task_id = v }, rest_of_stream))
      else (if field_number == 2
          then (do
            (v, rest_of_stream) ←
                w.read_singular_message_into (Client.merge_from w) Client.new wire_type rest
            ok (record m { client = some v }, rest_of_stream))
          else (if field_number == 3
              then (do
                (v, rest_of_stream) ←
                    w.read_repeated_message_into (Result.merge_from w) Result.new wire_type rest
                      m.result_list
                ok (record m { result_list = v }, rest_of_stream))
              else (if field_number == 4
                  then (do
                    expect_wire_type wire_type_varint wire_type
                    (v, rest_of_stream) ← w.read_bool rest
                    ok (record m { is_finished = v }, rest_of_stream))
                  else ((do
                    (v, rest_of_stream) ←
                        w.read_unknown_or_skip_group field_number wire_type rest m.unknown_fields
                    ok (record m { unknown_fields = v }, rest_of_stream))))))

  -- One round of the loop: a tag, and the field that it announces.
  unfoldable pub merge_field : TaskResult U → List ℕ → ProtobufResult (TaskResult U × List ℕ)
  unfolding read_field
  merge_field m is = do
    (field_number, wire_type, rest) ← w.read_tag_unpack is
    read_field m field_number wire_type rest

  unfoldable pub merge_from : TaskResult U → List ℕ → ProtobufResult (TaskResult U)
  unfolding merge_loop
  merge_from m is = merge_loop merge_field (length is) m is
