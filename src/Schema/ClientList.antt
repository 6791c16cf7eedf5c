-- ===== src/Schema/ClientList.antt =====
-- The message `ClientList` of schema/verfploeter.proto, in src/schema/verfploeter.rs: the struct
-- with its accessors, and its part of `protobuf::Message`. `cached_size` is left out: it holds what
-- `compute_size` returned last, and `write_to_bytes` calls that first.
pub mod RoundTrip
pub mod Termination
use verfploeter.Prelude.{
  ℕ, List, [], ◌∷◌, ◌++◌, Default, length, ◌==◌, if◌then◌else◌, add32, Bool, true, ◌&&◌, String,
}
use verfploeter.Schema.Wire.{
  Protobuf, ProtobufResult, add_nested_size, ok, wire_type_length_delimited, ◌>>=◌,
}
use verfploeter.Schema.Wire.Loop.{merge_loop}
use verfploeter.Schema.Client
use verfploeter.Schema.Client.{Client}

pub record ClientList (U : Type 0) : Type 0 where
  pub clients : List (Client U)
  pub unknown_fields : U

module _ {U : Type 0} ⦃u : Default U⦄ where
  abbrev pub new : ClientList U
  new = record { clients = []; unknown_fields = u.default }

  abbrev pub clear_clients : ClientList U → ClientList U
  clear_clients m = record m { clients = [] }

  abbrev pub set_clients : List (Client U) → ClientList U → ClientList U
  set_clients v m = record m { clients = v }

  abbrev pub take_clients : ClientList U → List (Client U) × ClientList U
  take_clients m = (m.clients, record m { clients = [] })

  abbrev pub get_clients : ClientList U → List (Client U)
  get_clients m = m.clients

  -- A mutable borrow: the value that it refers to, and the message with the value that it is left
  -- with. An absent message is made first.
  abbrev pub mut_clients : ClientList U → List (Client U) × (List (Client U) → ClientList U)
  mut_clients m = (m.clients, λ v. record m { clients = v })

  unfoldable pub clients_initialized : List (Client U) → Bool
  clients_initialized [] = true
  clients_initialized (v ∷ vs) = Client.is_initialized v && clients_initialized vs

  unfoldable pub is_initialized : ClientList U → Bool
  unfolding clients_initialized
  is_initialized m = clients_initialized m.clients

  abbrev pub clear : ClientList U → ClientList U
  clear m = record (clear_clients m) { unknown_fields = u.default }

  abbrev pub default_instance : ClientList U
  default_instance = new

module _ {U : Type 0} ⦃u : Default U⦄ (w : Protobuf U) where
  clients_size : ℕ → List (Client U) → ℕ
  clients_size my_size [] = my_size
  clients_size my_size (v ∷ vs) =
      let len = Client.compute_size w v in
      clients_size (add_nested_size my_size (w.compute_raw_varint32_size len) len) vs

  write_clients : List (Client U) → List ℕ
  write_clients [] = []
  write_clients (v ∷ vs) =
      w.write_tag 1 wire_type_length_delimited
      ++ (w.write_raw_varint32 (Client.compute_size w v)
          ++ (Client.write_to w v ++ write_clients vs))

  unfoldable pub compute_size : ClientList U → ℕ
  unfolding clients_size
  compute_size m =
      let s1 : ℕ = clients_size 0 m.clients in add32 s1 (w.unknown_fields_size m.unknown_fields)

  unfoldable pub write_to : ClientList U → List ℕ
  unfolding write_clients
  write_to m = write_clients m.clients ++ w.write_unknown_fields m.unknown_fields

  -- The field of the given number, from the stream behind its tag.
  read_field : ClientList U → ℕ → ℕ → List ℕ → ProtobufResult (ClientList U × List ℕ)
  read_field m field_number wire_type rest =
      if field_number == 1
      then (do
        (v, rest_of_stream) ←
            w.read_repeated_message_into (Client.merge_from w) Client.new wire_type rest m.clients
        ok (record m { clients = v }, rest_of_stream))
      else ((do
        (v, rest_of_stream) ←
            w.read_unknown_or_skip_group field_number wire_type rest m.unknown_fields
        ok (record m { unknown_fields = v }, rest_of_stream)))

  -- One round of the loop: a tag, and the field that it announces.
  unfoldable pub merge_field : ClientList U → List ℕ → ProtobufResult (ClientList U × List ℕ)
  unfolding read_field
  merge_field m is = do
    (field_number, wire_type, rest) ← w.read_tag_unpack is
    read_field m field_number wire_type rest

  unfoldable pub merge_from : ClientList U → List ℕ → ProtobufResult (ClientList U)
  unfolding merge_loop
  merge_from m is = merge_loop merge_field (length is) m is
