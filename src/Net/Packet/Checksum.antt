-- ===== src/Net/Packet/Checksum.antt =====
-- The Internet checksum of src/net/mod.rs: what its loops compute, and the sum of RFC 1071.
use verfploeter.Prelude.{
  zero, suc, refl, ◌∙◌, ap, subst, some, none, drop, length-drop, get_or-drop, drop-add, ℕ, ◌+◌,
  ◌-◌, ◌*◌, ◌/◌, ◌%◌, ◌^◌, ◌≤◌, ◌<◌, ◌≡◌, List, [], ◌∷◌, arith, length, All, IsU8, IsU16, add32,
  shr,
}
use verfploeter.Net.Cursor.{Cursor, ByteOrder, documented, IsByteOrder, IsByteOrder-eq}
use verfploeter.Net.Packet.{sum_words, sum_bytes, fold_carries, calc_checksum, echo_request}

-- The sum of the little-endian words, in unbounded arithmetic.
unfoldable pub word_sum : List ℕ → ℕ
word_sum [] = 0
word_sum (a ∷ []) = a
word_sum (a ∷ b ∷ rest) = a + b * 256 + word_sum rest

-- The loop over a list in place of a cursor.
sum_list : ℕ → List ℕ → ℕ
sum_list sum [] = sum
sum_list sum (a ∷ []) = add32 sum a
sum_list sum (a ∷ b ∷ rest) = sum_list (add32 sum (a + b * 256)) rest

sum_list-word_sum :
    (sum : ℕ) (xs : List ℕ) → sum + word_sum xs < 2 ^ 32 → sum_list sum xs ≡ sum + word_sum xs
unfolding sum_list word_sum
sum_list-word_sum sum [] h = omega arith
sum_list-word_sum sum (a ∷ []) h = omega arith
sum_list-word_sum sum (a ∷ b ∷ rest) h =
    omega (arith, sum_list-word_sum (add32 sum (a + b * 256)) rest (omega arith))

-- The odd last byte behind the loop.
abbrev last_byte : ℕ × Cursor → ℕ
last_byte (sum, cursor) = elim (documented.read_u8 cursor) [
  | some (last, cursor') ↦ add32 sum last
  | none ↦ sum
]

abbrev at : List ℕ → ℕ → Cursor
at buffer position = record { inner = buffer; position = position }

sum_words-sum_list :
    (fuel sum : ℕ) (buffer rest : List ℕ) (position : ℕ)
    → drop position buffer ≡ rest
    → length rest ≤ fuel
    → last_byte (sum_words documented fuel sum (at buffer position)) ≡ sum_list sum rest
unfolding sum_words sum_list
sum_words-sum_list zero sum buffer [] position e h =
    ground (arith, length-drop {0} position buffer, e)
sum_words-sum_list zero sum buffer (a ∷ rest) position e h = absurd (omega arith)
sum_words-sum_list (suc fuel) sum buffer [] position e h =
    ground (arith, length-drop {0} position buffer, e)
sum_words-sum_list (suc fuel) sum buffer (a ∷ []) position e h =
    ground (arith, length-drop {0} position buffer, get_or-drop {0} position 0 buffer 0, e)
sum_words-sum_list (suc fuel) sum buffer (a ∷ b ∷ rest) position e h =
    let behind : drop (position + 2) buffer ≡ rest = drop-add position 2 buffer ∙ ap (drop 2) e in
    let next : last_byte
          (sum_words documented fuel (add32 sum (a + b * 256)) (at buffer (position + 2)))
        ≡ sum_list (add32 sum (a + b * 256)) rest =
      sum_words-sum_list fuel (add32 sum (a + b * 256)) buffer rest (position + 2) behind
        (omega arith) in
    ground (
      arith,
      length-drop {0} position buffer,
      get_or-drop {0} position 0 buffer 0,
      get_or-drop {0} position 1 buffer 0,
      e,
      next,
    )

sum_bytes-word_sum : (xs : List ℕ) → word_sum xs < 2 ^ 32 → sum_bytes documented xs ≡ word_sum xs
unfolding sum_bytes
sum_bytes-word_sum xs h = omega (
  arith,
  sum_words-sum_list (length xs) 0 xs xs 0 refl (omega arith),
  sum_list-word_sum 0 xs (omega arith),
)

word_sum-le : (xs : List ℕ) → All IsU8 xs → 2 * word_sum xs ≤ 65535 * (length xs + 1)
unfolding word_sum
word_sum-le [] h = omega arith
word_sum-le (a ∷ []) h = omega arith
word_sum-le (a ∷ b ∷ rest) h = omega (arith, word_sum-le rest h.1.1)

fold_carries-ones_sum :
    (sum : ℕ) → 0 < sum → sum < 2 ^ 32 → fold_carries 2 sum ≡ (sum - 1) % 65535 + 1
unfolding fold_carries
fold_carries-ones_sum sum pos h = ground arith

-- A sum of bytes within the limit of an IPv4 datagram stays far below 2^32.
calc_checksum-word_sum :
    (xs : List ℕ)
    → All IsU8 xs
    → length xs < 131070
    → 0 < word_sum xs
    → calc_checksum documented xs ≡ 65534 - (word_sum xs - 1) % 65535
unfolding calc_checksum
calc_checksum-word_sum xs bytes short pos = omega (
  arith,
  word_sum-le xs bytes,
  sum_bytes-word_sum xs (omega (arith, word_sum-le xs bytes)),
  fold_carries-ones_sum (sum_bytes documented xs),
)

-- An echo request whose checksum field holds the bytes of `c`, the low one first.
abbrev request : ℕ → ℕ → ℕ → List ℕ → List ℕ
request c identifier sequence_number body =
    8
    ∷ 0
    ∷ c % 256
    ∷ c / 256
    ∷ identifier / 256
    ∷ identifier % 256
    ∷ sequence_number / 256
    ∷ sequence_number % 256
    ∷ body

module _ (identifier sequence_number : ℕ) (body : List ℕ) (hi : IsU16 identifier)
    (hs : IsU16 sequence_number) (hb : All IsU8 body) (hl : length body ≤ 65507) where
  request-IsU8 : (c : ℕ) → IsU16 c → All IsU8 (request c identifier sequence_number body)
  request-IsU8 c hc = ground arith

  calc_checksum-request :
      (c : ℕ)
      → IsU16 c
      → calc_checksum documented (request c identifier sequence_number body)
        ≡ 65534 - (word_sum (request 0 identifier sequence_number body) + c - 1) % 65535
  unfolding word_sum
  calc_checksum-request c hc = omega (
    arith,
    calc_checksum-word_sum (request c identifier sequence_number body) (request-IsU8 c hc),
  )

-- The sum of a request with its checksum is a multiple of 2^16 - 1.
word_sum-request :
    (identifier sequence_number : ℕ) (body : List ℕ)
    → IsU16 identifier
    → IsU16 sequence_number
    → All IsU8 body
    → length body ≤ 65507
    → let c = calc_checksum documented (request 0 identifier sequence_number body) in
      (IsU16 c)
      × (0 < word_sum (request c identifier sequence_number body))
      × (word_sum (request c identifier sequence_number body) % 65535 ≡ 0)
unfolding word_sum
word_sum-request i s body hi hs hb hl =
    let c = calc_checksum documented (request 0 i s body) in
    let is = calc_checksum-request i s body hi hs hb hl 0 (omega arith) in
    (omega (arith, is), omega (arith, is), omega (arith, is))

-- RFC 1071, as a receiver computes it: the words of 16 bits in network order, an odd last byte
-- padded with zero, are added with the carry brought round to the low end.
ones_add : ℕ → ℕ → ℕ
ones_add x y = (x + y) % 65536 + (x + y) / 65536

unfoldable pub ones_sum : List ℕ → ℕ
unfolding ones_add
ones_sum [] = 0
ones_sum (a ∷ []) = a * 256
ones_sum (a ∷ b ∷ rest) = ones_add (a * 256 + b) (ones_sum rest)

-- The sum is that of the little-endian words, with swapped bytes, modulo 2^16 - 1; it is zero only
-- if they are.
record Agrees (xs : List ℕ) : Type 0 where
  rounds : ℕ
  small : ones_sum xs ≤ 65535
  same : 256 * word_sum xs ≡ ones_sum xs + 65535 * rounds
  zero_only : ones_sum xs ≡ 0 → word_sum xs ≡ 0

ones_sum-Agrees : (xs : List ℕ) → All IsU8 xs → Agrees xs
unfolding ones_sum word_sum
ones_sum-Agrees [] h = record {
  rounds = 0;
  small = omega arith;
  same = omega arith;
  zero_only = λ e. omega arith;
}
ones_sum-Agrees (a ∷ []) h = record {
  rounds = 0;
  small = omega arith;
  same = omega arith;
  zero_only = λ e. omega arith;
}
ones_sum-Agrees (a ∷ b ∷ rest) h =
    let r = ones_sum-Agrees rest h.1.1 in
    record {
      rounds = b + r.rounds + (a * 256 + b + ones_sum rest) / 65536;
      small = omega (arith, r.small);
      same = omega (arith, r.same, r.small);
      zero_only = λ e. omega (arith, e, r.zero_only (omega (arith, e)));
    }

all_ones :
    (ones sum rounds : ℕ)
    → ones ≤ 65535
    → 256 * sum ≡ ones + 65535 * rounds
    → (ones ≡ 0 → sum ≡ 0)
    → 0 < sum
    → sum % 65535 ≡ 0
    → ones ≡ 65535
all_ones zero sum rounds small same zero_only positive multiple = omega (arith, zero_only refl)
all_ones (suc ones) sum rounds small same zero_only positive multiple = omega arith

documented-ones_sum :
    (identifier sequence_number : ℕ) (body : List ℕ)
    → IsU16 identifier
    → IsU16 sequence_number
    → All IsU8 body
    → length body ≤ 65507
    → ones_sum (echo_request documented identifier sequence_number body) ≡ 65535
unfolding echo_request
documented-ones_sum i s body hi hs hb hl =
    let c = calc_checksum documented (request 0 i s body) in
    let (hc, positive, multiple) = word_sum-request i s body hi hs hb hl in
    let r = ones_sum-Agrees (request c i s body) (request-IsU8 i s body hi hs hb hl c hc) in
    all_ones (ones_sum (request c i s body)) (word_sum (request c i s body)) r.rounds r.small r.same
      r.zero_only positive multiple

-- A request with an identifier and a number of 16 bits and a body of at most 65507 bytes passes the
-- test that RFC 1071 gives a receiver: the one's complement sum of all its words in network order,
-- the checksum among them and an odd last byte padded with zero, has all its bits set.
pub ones_sum-echo_request :
    (b : ByteOrder) (order : IsByteOrder b) (identifier sequence_number : ℕ) (body : List ℕ)
    → IsU16 identifier
    → IsU16 sequence_number
    → All IsU8 body
    → length body ≤ 65507
    → ones_sum (echo_request b identifier sequence_number body) ≡ 65535
ones_sum-echo_request b order i s body hi hs hb hl =
    subst (λ b. ones_sum (echo_request b i s body) ≡ 65535) (IsByteOrder-eq b order)
      (documented-ones_sum i s body hi hs hb hl)

-- After two rounds of the `while` loop its test fails, for every `u32`: they are enough.
pub fold_carries-ends : (sum : ℕ) → sum < 2 ^ 32 → shr (fold_carries 2 sum) 16 ≡ 0
unfolding fold_carries
fold_carries-ends sum h = ground arith
