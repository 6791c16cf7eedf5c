-- ===== src/Schema/Signed/Authentic.antt =====
-- Signing and checking: what is signed is accepted, and nothing else is.
use verfploeter.Prelude.{
  ℕ, ◌-◌, ◌≡◌, ◌↔◌, refl, sym, ap, ◌∙◌, Bool, true, List, ◌++◌, String, some, Default, length, take,
  drop, length-append, take-append, drop-append, take-append-drop, ltb, if◌then◌else◌, arith,
  le→ltb_false,
}
use verfploeter.Schema.Wire.{Protobuf, IsProtobuf, ProtobufResult}
use verfploeter.Schema.PingPayload
use verfploeter.Schema.PingPayload.{PingPayload}
use verfploeter.Schema.PingPayload.RoundTrip.{IsPingPayload, merge_from-write_to}
use verfploeter.Schema.Signed.{
  ok, err, length_error, mac_error, HmacSha256, IsMac, lift, to_signed_bytes, from_signed_bytes,
  new_varkey,
}

module _ {U : Type 0} ⦃u : Default U⦄ (w : Protobuf U) (h : HmacSha256) (law : IsMac h) where
  module _ (secret : String) (mac : h.Mac) (key : h.new_varkey secret ≡ some mac) where
    -- The checks in their order, once the key is accepted.
    checks :
        (buffer value signature : List ℕ)
        → take (length buffer - 32) buffer ≡ value
        → drop (length buffer - 32) buffer ≡ signature
        → from_signed_bytes w h secret buffer ≡ (
            if ltb (length buffer) 32
            then err length_error
            else (if h.verify (h.input mac value) signature
                then lift (PingPayload.merge_from w PingPayload.new value)
                else err mac_error))
    unfolding from_signed_bytes
    checks buffer value signature front back =
        rw (← front, ← back, from_signed_bytes, new_varkey, key) (ground arith)

    -- A buffer that ends in the code of what stands before it is read as a payload.
    from_signed_bytes-append :
        (value signature : List ℕ)
        → length signature ≡ 32
        → from_signed_bytes w h secret (value ++ signature) ≡ (
            if h.verify (h.input mac value) signature
            then lift (PingPayload.merge_from w PingPayload.new value)
            else err mac_error)
    from_signed_bytes-append value signature long =
        let size : length (value ++ signature) - 32 ≡ length value =
          omega (arith, length-append value signature) in
        checks (value ++ signature) value signature (rw size (take-append value signature))
          (rw size (drop-append value signature))
        ∙ rw (
            le→ltb_false (length (value ++ signature)) 32
              (omega (arith, length-append value signature)))

  lift_ok : {A : Type 0} (r : ProtobufResult A) (a : A) → lift r ≡ ok a → r ≡ ProtobufResult.ok a
  lift_ok r a e = ground arith

  pub to_signed_bytes-ok :
      (m : PingPayload U) (secret : String) (mac : h.Mac)
      → h.new_varkey secret ≡ some mac
      → to_signed_bytes w h m secret
        ≡ ok (PingPayload.write_to w m ++ h.code (h.input mac (PingPayload.write_to w m)))
  unfolding to_signed_bytes
  to_signed_bytes-ok m secret mac key = rw (new_varkey, key)

  pub from_signed_bytes-signed :
      (proto : IsProtobuf w) (m : PingPayload U) (secret : String) (mac : h.Mac)
      → IsPingPayload m
      → h.new_varkey secret ≡ some mac
      → from_signed_bytes w h secret
          (PingPayload.write_to w m ++ h.code (h.input mac (PingPayload.write_to w m)))
        ≡ ok m
  from_signed_bytes-signed proto m secret mac r key =
      let value = PingPayload.write_to w m in
      let signature = h.code (h.input mac value) in
      from_signed_bytes-append secret mac key value signature (law.length-code _)
      ∙ rw ((law.verify_iff _ signature).1 refl, merge_from-write_to w proto m r)

  -- For a payload in range and an accepted key, what `to_signed_bytes` returns is accepted under
  -- the same secret and gives the payload back.
  pub from_signed_bytes-to_signed_bytes :
      (proto : IsProtobuf w) (m : PingPayload U) (secret : String) (mac : h.Mac)
      → IsPingPayload m
      → h.new_varkey secret ≡ some mac
      → (bytes : List ℕ) × (to_signed_bytes w h m secret ≡ ok bytes)
        × (from_signed_bytes w h secret bytes ≡ ok m)
  from_signed_bytes-to_signed_bytes proto m secret mac r key =
      (_, to_signed_bytes-ok m secret mac key, from_signed_bytes-signed proto m secret mac r key)

  accepted :
      (short fits : Bool) (r : ProtobufResult (PingPayload U)) (m : PingPayload U)
      → (if short then err length_error else (if fits then lift r else err mac_error)) ≡ ok m
      → (fits ≡ true) × (r ≡ ProtobufResult.ok m)
  accepted short fits r m e = ground arith

  -- Under an accepted key a buffer gives a payload exactly when it is bytes that
  -- merge to the payload, followed by their code.
  pub from_signed_bytes-ok :
      (secret : String) (mac : h.Mac) (buffer : List ℕ) (m : PingPayload U)
      → h.new_varkey secret ≡ some mac
      → (from_signed_bytes w h secret buffer ≡ ok m) ↔ (
          (value : List ℕ) × (buffer ≡ value ++ h.code (h.input mac value))
          × (PingPayload.merge_from w PingPayload.new value ≡ ProtobufResult.ok m))
  from_signed_bytes-ok secret mac buffer m key =
      let value = take (length buffer - 32) buffer in
      let signature = drop (length buffer - 32) buffer in
      (
        λ e.
            let a =
              accepted _ _ _ m (sym (checks secret mac key buffer value signature refl refl) ∙ e) in
            (
              value,
              sym (take-append-drop (length buffer - 32) buffer)
                  ∙ ap (◌++◌ value) ((law.verify_iff (h.input mac value) signature).0 a.0),
              a.1,
            ),
        λ (value, whole, merged). rw whole (
            from_signed_bytes-append secret mac key value _ (law.length-code _)
            ∙ rw ((law.verify_iff (h.input mac value) _).1 refl, merged)),
      )
