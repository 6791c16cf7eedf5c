-- ===== src/Schema/Signed.antt =====
-- Signed payloads: `Signable<PingPayload>` in src/schema/mod.rs, with the crates `hmac` and `sha2`
-- as a parameter.
pub mod Authentic
use verfploeter.Prelude.{
  ℕ, ◌+◌, ◌-◌, ◌≡◌, ◌↔◌, Bool, true, false, List, [], ◌++◌, String, Option, none, some, Default,
  length, take, drop, ltb, if◌then◌else◌,
}
use verfploeter.Schema.Wire.{Protobuf, ProtobufResult, ProtobufError}
use verfploeter.Schema.PingPayload
use verfploeter.Schema.PingPayload.{PingPayload}

pub data SignedError : Type 0 where
  length_error : SignedError
  invalid_key_length : SignedError
  mac_error : SignedError
  protobuf_error : ProtobufError → SignedError

-- `out_of_fuel` marks a loop of the model with too little fuel.
pub data SignedResult (A : Type 0) : Type 0 where
  ok : A → SignedResult A
  err : SignedError → SignedResult A
  out_of_fuel : SignedResult A

infixl 5 ◌>>=◌ ◌>>◌
abbrev pub ◌>>=◌ : {A B : Type 0} → SignedResult A → (A → SignedResult B) → SignedResult B
ok a >>= f = f a
err e >>= f = err e
out_of_fuel >>= f = out_of_fuel

abbrev pub ◌>>◌ : {B : Type 0} → SignedResult (Unit {0}) → SignedResult B → SignedResult B
m >> k = m >>= λ _. k

-- `?` on an error of another type: `Box<Error>` takes any.
abbrev pub lift : {A : Type 0} → ProtobufResult A → SignedResult A
lift (ProtobufResult.ok a) = ok a
lift (ProtobufResult.err e) = err (protobuf_error e)
lift ProtobufResult.out_of_fuel = out_of_fuel

-- `Hmac<Sha256>` as a `Mac`: `new_varkey`, `input`, `result().code()` and `verify`.
pub record HmacSha256 : Type 1 where
  pub Mac : Type 0
  pub new_varkey : String → Option Mac
  pub input : Mac → List ℕ → Mac
  pub code : Mac → List ℕ
  pub verify : Mac → List ℕ → Bool

-- The documented behaviour: a code has 32 bytes, and `verify` accepts the code and nothing else.
pub record IsMac (h : HmacSha256) : Type 0 where
  pub length-code : (m : h.Mac) → length (h.code m) ≡ 32
  pub verify_iff : (m : h.Mac) (s : List ℕ) → (h.verify m s ≡ true) ↔ (s ≡ h.code m)

module _ {U : Type 0} ⦃u : Default U⦄ (w : Protobuf U) (h : HmacSha256) where
  new_varkey : String → SignedResult h.Mac
  new_varkey secret = elim (h.new_varkey secret) [
    | some mac ↦ ok mac
    | none ↦ err invalid_key_length
  ]

  unfoldable pub to_signed_bytes : PingPayload U → String → SignedResult (List ℕ)
  unfolding new_varkey
  to_signed_bytes payload secret = do
    mac ← new_varkey secret
    let payload_bytes = PingPayload.write_to w payload
    ok (payload_bytes ++ h.code (h.input mac payload_bytes))

  verify : h.Mac → List ℕ → SignedResult (Unit {0})
  verify mac signature = if h.verify mac signature then ok tt else err mac_error

  unfoldable pub from_signed_bytes : String → List ℕ → SignedResult (PingPayload U)
  unfolding new_varkey verify
  from_signed_bytes secret buffer = if ltb (length buffer) 32 then err length_error else (do
    mac ← new_varkey secret
    let signature = drop (length buffer - 32) buffer
    let value = take (length buffer - 32) buffer
    verify (h.input mac value) signature
    lift (PingPayload.merge_from w PingPayload.new value))
