-- ===== src/Tests/Crates/Reader.antt =====
-- The concrete wire format gives no bytes back.
use verfploeter.Prelude.{
  ℕ, ◌≤◌, ◌<◌, ◌≡◌, ◌≢◌, refl, List, Option, none, some, arith, length, drop, length-drop, leb,
  if◌then◌else◌, take, ◌/◌, ◌%◌, String, not, ◌==◌, ◌++◌, ◌∷◌, [],
}
use verfploeter.Schema.Wire.{
  ProtobufResult, ok, err, out_of_fuel, wire_error, ◌>>=◌, wire_type_length_delimited, Shrinks,
  IsReader,
}
use verfploeter.Schema.Wire.Progress.{Shrinks-if, Shrinks-expect}
use verfploeter.Tests.Crates.Varint.{decode, Shorter, decode-Shorter}
use verfploeter.Tests.Crates.Text.{text}
use verfploeter.Tests.Crates.Wire.{
  format, or_end, read_varint, read_tag, read_delimited, read_nested, or_malformed, read_string,
  read_bool, read_repeated,
}

or_end-Shrinks : (is : List ℕ) (o : Option (ℕ × List ℕ)) → Shorter is o → Shrinks is (or_end o)
or_end-Shrinks is none h = tt
or_end-Shrinks is (some (v, rest)) h = omega arith

read_varint-Shrinks : (is : List ℕ) → Shrinks is (read_varint is)
unfolding read_varint
read_varint-Shrinks is = or_end-Shrinks is (decode is) (decode-Shorter is)

lengthen :
    {A : Type 0} (is rest : List ℕ) (r : ProtobufResult (A × List ℕ))
    → length rest ≤ length is
    → Shrinks rest r
    → Shrinks is r
lengthen is rest (ok (a, left)) h s = omega arith
lengthen is rest (err e) h s = tt
lengthen is rest out_of_fuel h s = s

delimited :
    (is : List ℕ) (r : ProtobufResult (ℕ × List ℕ))
    → Shrinks is r
    → Shrinks is (
        r >>= (λ (n, rest).
          if leb n (length rest) then ok (take n rest, drop n rest) else err (wire_error 1)))
delimited is (ok (n, rest)) h =
    Shrinks-if (leb n (length rest)) is (ok (take n rest, drop n rest)) (err (wire_error 1))
      (omega (arith, length-drop n rest)) tt
delimited is (err e) h = tt
delimited is out_of_fuel h = h

read_delimited-Shrinks : (is : List ℕ) → Shrinks is (read_delimited is)
unfolding read_delimited
read_delimited-Shrinks is = delimited is (read_varint is) (read_varint-Shrinks is)

merged :
    {M : Type 0} (is rest : List ℕ) (r : ProtobufResult M)
    → length rest ≤ length is
    → r ≢ out_of_fuel
    → Shrinks is (r >>= (λ m. ok (m, rest)))
merged is rest (ok m) short ne = short
merged is rest (err e) short ne = tt
merged is rest out_of_fuel short ne = ne refl

nested :
    {M : Type 0} (merge : M → List ℕ → ProtobufResult M) (new : M) (is : List ℕ)
    (r : ProtobufResult (List ℕ × List ℕ))
    → ((body : List ℕ) → merge new body ≢ out_of_fuel)
    → Shrinks is r
    → Shrinks is (r >>= (λ (body, rest). merge new body >>= (λ m. ok (m, rest))))
nested merge new is (ok (body, rest)) returns h = merged is rest (merge new body) h (returns body)
nested merge new is (err e) returns h = tt
nested merge new is out_of_fuel returns h = h

read_nested-Shrinks :
    {M : Type 0} (merge : M → List ℕ → ProtobufResult M) (new : M) (is : List ℕ)
    → ((body : List ℕ) → merge new body ≢ out_of_fuel)
    → Shrinks is (read_nested merge new is)
unfolding read_nested
read_nested-Shrinks merge new is returns =
    nested merge new is (read_delimited is) returns (read_delimited-Shrinks is)

finished :
    {A B : Type 0} (f : A → List ℕ → ProtobufResult (B × List ℕ)) (is : List ℕ)
    (r : ProtobufResult (A × List ℕ))
    → ((a : A) (rest : List ℕ) → Shrinks rest (f a rest))
    → Shrinks is r
    → Shrinks is (r >>= (λ (a, rest). f a rest))
finished f is (ok (a, rest)) each h = lengthen is rest (f a rest) h (each a rest)
finished f is (err e) each h = tt
finished f is out_of_fuel each h = h

or_malformed-Shrinks : (rest : List ℕ) (v : Option String) → Shrinks rest (or_malformed rest v)
or_malformed-Shrinks rest none = tt
or_malformed-Shrinks rest (some v) = omega arith

read_string-Shrinks : (is : List ℕ) → Shrinks is (read_string is)
unfolding read_string
read_string-Shrinks is =
    finished (λ body rest. or_malformed rest (text body)) is (read_delimited is)
      (λ body rest. or_malformed-Shrinks rest (text body)) (read_delimited-Shrinks is)

read_bool-Shrinks : (is : List ℕ) → Shrinks is (read_bool is)
unfolding read_bool
read_bool-Shrinks is =
    finished (λ v rest. ok (not (v == 0), rest)) is (read_varint is) (λ v rest. omega arith)
      (read_varint-Shrinks is)

read_repeated-Shrinks :
    {M : Type 0} (merge : M → List ℕ → ProtobufResult M) (new : M) (is : List ℕ) (ms : List M)
    → ((body : List ℕ) → merge new body ≢ out_of_fuel)
    → Shrinks is (read_repeated merge new is ms)
unfolding read_repeated
read_repeated-Shrinks merge new is ms returns =
    finished (λ m rest. ok (ms ++ (m ∷ []), rest)) is (read_nested merge new is)
      (λ m rest. omega arith) (read_nested-Shrinks merge new is returns)

-- The field number and the wire type of a tag.
abbrev numbers : ℕ × List ℕ → ProtobufResult (ℕ × ℕ × List ℕ)
numbers (v, rest) = ok (v / 8, v % 8, rest)

tag_shrinks :
    (is : List ℕ) (o : Option (ℕ × List ℕ))
    → Shorter is o
    → ((or_end o >>= numbers) ≢ out_of_fuel)
      × ((f t : ℕ) (rest : List ℕ)
          → (or_end o >>= numbers) ≡ ok (f, t, rest)
          → length rest < length is)
tag_shrinks is none h = (λ e. ground arith, λ f t rest e. ground arith)
tag_shrinks is (some (v, rest)) h = (λ e. ground arith, λ f t rest e. ground arith)

pub format-IsReader : IsReader format
unfolding format read_tag read_varint
format-IsReader = record {
  tag_shrinks = λ is. tag_shrinks is (decode is) (decode-Shorter is);
  uint32_shrinks = λ is. read_varint-Shrinks is;
  uint64_shrinks = λ is. read_varint-Shrinks is;
  bytes_shrinks = λ is. read_delimited-Shrinks is;
  message_shrinks = λ merge new t is returns.
      Shrinks-expect wire_type_length_delimited t is _ (read_nested-Shrinks merge new is returns);
  bool_shrinks = λ is. read_bool-Shrinks is;
  string_shrinks =
      λ t is. Shrinks-expect wire_type_length_delimited t is _ (read_string-Shrinks is);
  read_message_shrinks = λ merge new is returns. read_nested-Shrinks merge new is returns;
  repeated_shrinks = λ merge new t is ms returns.
      Shrinks-expect wire_type_length_delimited t is _
        (read_repeated-Shrinks merge new is ms returns);
  unknown_shrinks = λ f t is fields. tt;
}
