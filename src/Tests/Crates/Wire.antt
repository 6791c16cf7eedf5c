-- ===== src/Tests/Crates/Wire.antt =====
-- The wire format of protocol buffers, without unknown fields. A text is the number of its bytes and
-- the bytes that Text gives it.
use verfploeter.Prelude.{
  ℕ, ◌+◌, ◌*◌, ◌/◌, ◌%◌, ◌^◌, ◌<◌, ◌≡◌, refl, ap, Bool, true, not, List, append_assoc, String, [],
  ◌∷◌, ◌++◌, Option, none, some, Default, arith, ◌==◌, leb, if◌then◌else◌, length, take, drop,
  drop-append, length-append, take-append, leb, ◌==◌,
}
use verfploeter.Schema.Wire.{
  ProtobufResult, ok, err, wire_error, ◌>>=◌, ◌>>◌, expect_wire_type, wire_type_length_delimited,
  Protobuf, IsProtobuf,
}
use verfploeter.Tests.Crates.Text.{bytes, text, text-bytes}
use verfploeter.Tests.Crates.Varint.{encode, decode, decode-encode, encode_short, length-encode_le}

instance abbrev pub unit_default : Default (Unit {0})
unit_default = record { default = tt }

unfoldable pub varint : ℕ → List ℕ
varint v = encode 9 v

abbrev pub or_end : {A : Type 0} → Option A → ProtobufResult A
or_end none = err (wire_error 0)
or_end (some a) = ok a

unfoldable pub read_varint : List ℕ → ProtobufResult (ℕ × List ℕ)
unfolding decode
read_varint is = or_end (decode is)

unfoldable pub tag : ℕ → ℕ → List ℕ
unfolding varint
tag f t = varint (f * 8 + t)

unfoldable pub read_tag : List ℕ → ProtobufResult (ℕ × ℕ × List ℕ)
unfolding read_varint
read_tag is = do (v, rest) ← read_varint is; ok (v / 8, v % 8, rest)

-- The number of bytes, and so many bytes.
unfoldable pub read_delimited : List ℕ → ProtobufResult (List ℕ × List ℕ)
unfolding read_varint
read_delimited is = do
  (n, rest) ← read_varint is
  if leb n (length rest) then ok (take n rest, drop n rest) else err (wire_error 1)

unfoldable pub read_nested :
    {M : Type 0} → (M → List ℕ → ProtobufResult M) → M → List ℕ → ProtobufResult (M × List ℕ)
unfolding read_delimited
read_nested merge new is = do (body, rest) ← read_delimited is; m ← merge new body; ok (m, rest)

-- The number of a text's bytes, and the bytes.
unfoldable pub string_body : String → List ℕ
unfolding varint
string_body v = varint (length (bytes v)) ++ bytes v

abbrev pub or_malformed : List ℕ → Option String → ProtobufResult (String × List ℕ)
or_malformed rest none = err (wire_error 2)
or_malformed rest (some v) = ok (v, rest)

unfoldable pub read_string : List ℕ → ProtobufResult (String × List ℕ)
unfolding read_delimited
read_string is = do (body, rest) ← read_delimited is; or_malformed rest (text body)

unfoldable pub read_bool : List ℕ → ProtobufResult (Bool × List ℕ)
unfolding read_varint
read_bool is = do (v, rest) ← read_varint is; ok (not (v == 0), rest)

unfoldable pub read_repeated :
    {M : Type 0}
    → (M → List ℕ → ProtobufResult M)
    → M
    → List ℕ
    → List M
    → ProtobufResult (List M × List ℕ)
unfolding read_nested
read_repeated merge new is ms = do (m, rest) ← read_nested merge new is; ok (ms ++ (m ∷ []), rest)

unfoldable pub format : Protobuf (Unit {0})
unfolding varint tag read_varint read_tag read_delimited read_nested string_body read_string
    read_bool read_repeated
format = record {
  write_tag = tag;
  write_raw_varint32 = varint;
  write_raw_varint64 = varint;
  write_uint32 = λ f v. tag f 0 ++ varint v;
  write_uint64 = λ f v. tag f 0 ++ varint v;
  write_bool = λ f b. tag f 0 ++ varint (if b then 1 else 0);
  write_string = λ f s. tag f 2 ++ string_body s;
  write_bytes = λ f v. tag f 2 ++ (varint (length v) ++ v);
  write_unknown_fields = λ fields. [];
  value_size = λ f v t. length (tag f t ++ varint v) % 2 ^ 32;
  bytes_size = λ f v. length (tag f 2 ++ (varint (length v) ++ v)) % 2 ^ 32;
  string_size = λ f s. length (tag f 2 ++ string_body s) % 2 ^ 32;
  compute_raw_varint32_size = λ v. length (varint v);
  unknown_fields_size = λ fields. 0;
  read_tag_unpack = read_tag;
  read_uint32 = read_varint;
  read_uint64 = read_varint;
  read_bool = read_bool;
  read_bytes = read_delimited;
  read_singular_proto3_string_into =
      λ t is. expect_wire_type wire_type_length_delimited t >> read_string is;
  read_message = read_nested;
  read_singular_message_into =
      λ merge new t is. expect_wire_type wire_type_length_delimited t >> read_nested merge new is;
  read_repeated_message_into = λ merge new t is ms.
      expect_wire_type wire_type_length_delimited t >> read_repeated merge new is ms;
  read_unknown_or_skip_group = λ f t is fields. err (wire_error 3);
}

read_varint-varint :
    (v : ℕ) (rest : List ℕ) → v < 2 ^ 64 → read_varint (varint v ++ rest) ≡ ok (v, rest)
unfolding read_varint varint
read_varint-varint v rest h = ap or_end (decode-encode 9 v rest (omega arith))

read_tag-tag :
    (f t : ℕ) (rest : List ℕ) → f < 16 → t < 6 → read_tag (tag f t ++ rest) ≡ ok (f, t, rest)
unfolding read_tag tag
read_tag-tag f t rest hf ht =
    let number : (f * 8 + t) / 8 ≡ f = omega arith in
    let wire_type : (f * 8 + t) % 8 ≡ t = omega arith in
    rw (read_varint-varint (f * 8 + t) rest (omega arith), number, wire_type)

within : (v rest : List ℕ) → leb (length v) (length (v ++ rest)) ≡ true
within v rest = ground (arith, length-append v rest)

read_delimited-varint :
    (v rest : List ℕ)
    → length v < 2 ^ 32
    → read_delimited (varint (length v) ++ (v ++ rest)) ≡ ok (v, rest)
unfolding read_delimited
read_delimited-varint v rest h = rw (
  read_varint-varint (length v) (v ++ rest) (omega arith),
  within v rest,
  take-append v rest,
  drop-append v rest,
)

length-tag : (f t : ℕ) → f < 16 → t < 6 → length (tag f t) ≡ 1
unfolding tag varint
length-tag f t h ht = ap length (encode_short 9 (f * 8 + t) (omega arith))

read_string-string_body :
    (v : String) (rest : List ℕ)
    → length (string_body v) < 2 ^ 32
    → read_string (string_body v ++ rest) ≡ ok (v, rest)
unfolding read_string string_body
read_string-string_body v rest h = rw (
  append_assoc (varint (length (bytes v))) (bytes v) rest,
  read_delimited-varint (bytes v) rest
      (omega (arith, length-append (varint (length (bytes v))) (bytes v))),
  text-bytes v,
)

read_bool-varint : (rest : List ℕ) → read_bool (varint 1 ++ rest) ≡ ok (true, rest)
unfolding read_bool
read_bool-varint rest = rw (read_varint-varint 1 rest (omega arith))

pub format-IsProtobuf : IsProtobuf format
unfolding format tag varint encode read_nested read_bool read_repeated
format-IsProtobuf = record {
  length-write_tag = λ f t pos h ht. length-tag f t h ht;
  length-write_raw_varint32 = λ v h. length-encode_le 4 9 v (omega arith);
  length-write_raw_varint64 = λ v h. length-encode_le 9 9 v (omega arith);
  read_tag = λ f t rest pos h ht. read_tag-tag f t rest h ht;
  write_uint32_lem = λ f v. refl;
  write_uint64_lem = λ f v. refl;
  write_bytes_lem = λ f v. refl;
  read_uint32_lem = λ v rest h. read_varint-varint v rest (omega arith);
  read_uint64_lem = λ v rest h. read_varint-varint v rest (omega arith);
  read_bytes_lem = λ v rest h. read_delimited-varint v rest (omega arith);
  read_singular_message =
      λ merge new m body rest h e. rw (read_delimited-varint body rest (omega arith), e);
  value_size_uint32 = λ f v. refl;
  value_size_uint64 = λ f v. refl;
  bytes_size_lem = λ f v. refl;
  varint32_size = λ v. refl;
  no_unknown_fields = refl;
  unknown_fields_size_lem = λ fields. refl;
  string_size_lem = λ f v. refl;
  length-write_bool = λ f pos h. rw (length-append, length-tag f 0 h (omega arith)) refl;
  write_bool_lem = λ f. refl;
  read_bool_lem = λ rest. read_bool-varint rest;
  string_body = string_body;
  write_string_lem = λ f v. refl;
  read_string_lem = λ v rest h. read_string-string_body v rest h;
  read_message_lem =
      λ merge new m body rest h e. rw (read_delimited-varint body rest (omega arith), e);
  read_repeated_message =
      λ merge new m ms body rest h e. rw (read_delimited-varint body rest (omega arith), e);
}
