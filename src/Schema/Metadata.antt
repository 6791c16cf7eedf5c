-- ===== src/Schema/Metadata.antt =====
-- The message `Metadata` of schema/verfploeter.proto, in src/schema/verfploeter.rs: the struct with
-- its accessors, and its part of `protobuf::Message`. `cached_size` is left out: it holds what
-- `compute_size` returned last, and `write_to_bytes` calls that first.
pub mod RoundTrip
pub mod Termination
use text.Mathlib.Text.{◌==◌ as str_eq}
use verfploeter.Prelude.{
  ℕ, not, String, List, [], ◌++◌, Default, length, ◌==◌, if◌then◌else◌, add32, Bool, true, ◌&&◌,
  ◌∷◌,
}
use verfploeter.Schema.Wire.{Protobuf, ProtobufResult, ok, ◌>>=◌}
use verfploeter.Schema.Wire.Loop.{merge_loop}

pub record Metadata (U : Type 0) : Type 0 where
  pub hostname : String
  pub version : String
  pub unknown_fields : U

module _ {U : Type 0} ⦃u : Default U⦄ where
  abbrev pub new : Metadata U
  new = record { hostname = ""; version = ""; unknown_fields = u.default }

  abbrev pub clear_hostname : Metadata U → Metadata U
  clear_hostname m = record m { hostname = "" }

  abbrev pub set_hostname : String → Metadata U → Metadata U
  set_hostname v m = record m { hostname = v }

  abbrev pub take_hostname : Metadata U → String × Metadata U
  take_hostname m = (m.hostname, record m { hostname = "" })

  abbrev pub get_hostname : Metadata U → String
  get_hostname m = m.hostname

  abbrev pub clear_version : Metadata U → Metadata U
  clear_version m = record m { version = "" }

  abbrev pub set_version : String → Metadata U → Metadata U
  set_version v m = record m { version = v }

  abbrev pub take_version : Metadata U → String × Metadata U
  take_version m = (m.version, record m { version = "" })

  abbrev pub get_version : Metadata U → String
  get_version m = m.version

  -- A mutable borrow: the value that it refers to, and the message with the value that it is left
  -- with. An absent message is made first.
  abbrev pub mut_hostname : Metadata U → String × (String → Metadata U)
  mut_hostname m = (m.hostname, λ v. record m { hostname = v })

  abbrev pub mut_version : Metadata U → String × (String → Metadata U)
  mut_version m = (m.version, λ v. record m { version = v })

  unfoldable pub is_initialized : Metadata U → Bool
  is_initialized m = true

  abbrev pub clear : Metadata U → Metadata U
  clear m = record (clear_version (clear_hostname m)) { unknown_fields = u.default }

  abbrev pub default_instance : Metadata U
  default_instance = new

module _ {U : Type 0} ⦃u : Default U⦄ (w : Protobuf U) where
  unfoldable pub compute_size : Metadata U → ℕ
  compute_size m =
      let s1 : ℕ = if not (str_eq m.hostname "") then add32 0 (w.string_size 1 m.hostname) else 0 in
      let s2 : ℕ = if not (str_eq m.version "") then add32 s1 (w.string_size 2 m.version) else s1 in
      add32 s2 (w.unknown_fields_size m.unknown_fields)

  unfoldable pub write_to : Metadata U → List ℕ
  write_to m =
      (if not (str_eq m.hostname "") then w.write_string 1 m.hostname else [])
      ++ ((if not (str_eq m.version "") then w.write_string 2 m.version else [])
          ++ w.write_unknown_fields m.unknown_fields)

  -- The field of the given number, from the stream behind its tag.
  read_field : Metadata U → ℕ → ℕ → List ℕ → ProtobufResult (Metadata U × List ℕ)
  read_field m field_number wire_type rest =
      if field_number == 1
      then (do
        (v, rest_of_stream) ← w.read_singular_proto3_string_into wire_type rest
        ok (record m { hostname = v }, rest_of_stream))
      else (if field_number == 2
          then (do
            (v, rest_of_stream) ← w.read_singular_proto3_string_into wire_type rest
            ok (record m { version = v }, rest_of_stream))
          else ((do
            (v, rest_of_stream) ←
                w.read_unknown_or_skip_group field_number wire_type rest m.unknown_fields
            ok (record m { unknown_fields = v }, rest_of_stream))))

  -- One round of the loop: a tag, and the field that it announces.
  unfoldable pub merge_field : Metadata U → List ℕ → ProtobufResult (Metadata U × List ℕ)
  unfolding read_field
  merge_field m is = do
    (field_number, wire_type, rest) ← w.read_tag_unpack is
    read_field m field_number wire_type rest

  unfoldable pub merge_from : Metadata U → List ℕ → ProtobufResult (Metadata U)
  unfolding merge_loop
  merge_from m is = merge_loop merge_field (length is) m is
