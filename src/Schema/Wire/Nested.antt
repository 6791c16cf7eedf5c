-- ===== src/Schema/Wire/Nested.antt =====
-- Reading back the fields that hold messages.
use verfploeter.Prelude.{
  ℕ, ◌<◌, ◌^◌, ◌≡◌, sym, subst, All, List, [], ◌∷◌, ◌++◌, append_assoc, append-nil, Option, none,
  some, Default, length, length-append, arith, IsU32,
}
use verfploeter.Schema.Wire.{ProtobufResult, ok, Protobuf, IsProtobuf, wire_type_length_delimited}
use verfploeter.Schema.Wire.Sizes.{Counts}
use verfploeter.Schema.Wire.Fields.{Merges, Field, Merges-Field}

-- What a message's own functions do, where another message holds it.
pub record Codec {M : Type 0} (Fits : M → Type 0) (new : M) (compute_size : M → ℕ)
    (write_to : M → List ℕ) (merge_from : M → List ℕ → ProtobufResult M) : Type 0 where
  pub size : (m : M) → Counts (compute_size m) (length (write_to m))
  pub round : (m : M) → Fits m → length (write_to m) < 2 ^ 32 → merge_from new (write_to m) ≡ ok m

-- What holds of a value, if there is one.
abbrev pub OfSome : {A : Type 0} → (A → Type 0) → Option A → Type 0
OfSome P none = Unit {0}
OfSome P (some a) = P a

regroup :
    (t v b ws rest : List ℕ) → (t ++ (v ++ (b ++ ws))) ++ rest ≡ (t ++ (v ++ b)) ++ (ws ++ rest)
regroup t v b ws rest = simp append_assoc

module _ {U : Type 0} ⦃u : Default U⦄ (w : Protobuf U) (h : IsProtobuf w) {M : Type 0}
    (round : M → List ℕ → ProtobufResult (M × List ℕ)) where
  module _ {N : Type 0} {Fits : N → Type 0} {new : N} {compute_size : N → ℕ} {write_to : N → List ℕ}
      {merge_from : N → List ℕ → ProtobufResult N}
      (c : Codec Fits new compute_size write_to merge_from) where
    -- A message behind its length.
    abbrev pub delimited : N → List ℕ
    delimited a = w.write_raw_varint32 (compute_size a) ++ write_to a

    -- Its length is written as it is.
    exact :
        (a : N) (rest : List ℕ)
        → length (delimited a ++ rest) < 2 ^ 32
        → compute_size a ≡ length (write_to a)
    exact a rest bound = omega (
      arith,
      c.size a,
      length-append (delimited a) rest,
      length-append (w.write_raw_varint32 (compute_size a)) (write_to a),
    )

    -- A read that undoes the delimited writing of what merges back.
    abbrev Undoes : {A : Type 0} → (List ℕ → ProtobufResult (A × List ℕ)) → (N → A) → Type 0
    Undoes read result =
        (m : N) (body rest : List ℕ)
        → IsU32 (length body)
        → merge_from new body ≡ ok m
        → read (w.write_raw_varint32 (length body) ++ (body ++ rest)) ≡ ok (result m, rest)

    delimited-Undoes :
        {A : Type 0} (read : List ℕ → ProtobufResult (A × List ℕ)) (result : N → A)
        → Undoes read result
        → (a : N) (rest : List ℕ) → Fits a
        → length (delimited a ++ rest) < 2 ^ 32
        → read (delimited a ++ rest) ≡ ok (result a, rest)
    delimited-Undoes read result undoes a rest fits bound =
        let short : length (write_to a) < 2 ^ 32 = omega (
          arith,
          length-append (delimited a) rest,
          length-append (w.write_raw_varint32 (compute_size a)) (write_to a),
        ) in
        rw (append_assoc, exact a rest bound)
          (undoes a (write_to a) rest short (c.round a fits short))

    Merges-delimited :
        {A : Type 0} (f : ℕ) (a : N) (read : List ℕ → ProtobufResult (A × List ℕ)) (result : N → A)
        (m r : M) (place : A → M) (rest : List ℕ)
        → 0 < f
        → f < 16
        → Field w h round f wire_type_length_delimited read m place
        → Undoes read result
        → Fits a
        → Merges w h round (place (result a)) rest r
        → Merges w h round m ((w.write_tag f wire_type_length_delimited ++ delimited a) ++ rest) r
    Merges-delimited f a read result m r place rest pos small field undoes fits =
        Merges-Field w h round f wire_type_length_delimited (result a) (delimited a) read m r place
          rest pos small (omega arith) field (delimited-Undoes read result undoes a rest fits)

    -- The field of a message, which may be missing.
    pub Merges-singular :
        (f : ℕ) (o : Option N) (place : Option N → M) (r : M) (rest : List ℕ)
        → 0 < f
        → f < 16
        → Field w h round f wire_type_length_delimited
            (w.read_singular_message_into merge_from new wire_type_length_delimited)
            (place none)
            (λ a. place (some a))
        → OfSome Fits o
        → Merges w h round (place o) rest r
        → Merges w h round
            (place none)
            ((elim o [
              | some v ↦ w.write_tag f wire_type_length_delimited ++ delimited v
              | none ↦ []
            ])
              ++ rest)
            r
    Merges-singular f none place r rest pos small field fits = λ next. next
    Merges-singular f (some a) place r rest pos small field fits =
        Merges-delimited f a
          (w.read_singular_message_into merge_from new wire_type_length_delimited) (λ a. a)
          (place none) r (λ a. place (some a)) rest pos small field
          (h.read_singular_message merge_from new) fits

    -- The message of a `oneof`.
    pub Merges-message :
        (f : ℕ) (a : N) (m r : M) (place : N → M) (rest : List ℕ)
        → 0 < f
        → f < 16
        → Field w h round f wire_type_length_delimited (w.read_message merge_from new) m place
        → Fits a
        → Merges w h round (place a) rest r
        → Merges w h round m ((w.write_tag f wire_type_length_delimited ++ delimited a) ++ rest) r
    Merges-message f a m r place rest pos small field =
        Merges-delimited f a (w.read_message merge_from new) (λ a. a) m r place rest pos small field
          (h.read_message_lem merge_from new)

    -- A list of messages, one field each.
    pub Merges-repeated :
        (f : ℕ) (written : List N → List ℕ) (place : List N → M) (r : M) (rest : List ℕ)
        → 0 < f
        → f < 16
        → (written [] ≡ [])
        → ((a : N) (more : List N)
            → written (a ∷ more)
              ≡ w.write_tag f wire_type_length_delimited
                ++ (w.write_raw_varint32 (compute_size a) ++ (write_to a ++ written more)))
        → ((done : List N)
            → Field w h round f wire_type_length_delimited
                (λ is.
                  w.read_repeated_message_into merge_from new wire_type_length_delimited is done)
                (place done)
                place)
        → (done todo : List N) → All Fits todo
        → Merges w h round (place (done ++ todo)) rest r
        → Merges w h round (place done) (written todo ++ rest) r
    Merges-repeated f written place r rest pos small nil cons field done [] fits next =
        rw nil (subst (λ ms. Merges w h round (place ms) rest r) (append-nil done) next)
    Merges-repeated f written place r rest pos small nil cons field done (a ∷ todo) fits next =
        rw
          (
            cons a todo,
            regroup (w.write_tag f wire_type_length_delimited)
                (w.write_raw_varint32 (compute_size a)) (write_to a) (written todo) rest,
          )
          (Merges-delimited f a
            (λ is. w.read_repeated_message_into merge_from new wire_type_length_delimited is done)
            (λ m. done ++ (m ∷ [])) (place done) r place (written todo ++ rest) pos small
            (field done)
            (λ m body rest fit e. h.read_repeated_message merge_from new m done body rest fit e)
            fits.0
            (Merges-repeated f written place r rest pos small nil cons field (done ++ (a ∷ [])) todo
              fits.1
              (subst (λ ms. Merges w h round (place ms) rest r)
                (sym (append_assoc done (a ∷ []) todo)) next)))
