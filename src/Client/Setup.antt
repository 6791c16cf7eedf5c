-- ===== src/Client/Setup.antt =====
-- `Client::new` in src/client/mod.rs: how the client connects, and what it tells of itself.
use verfploeter.Prelude.{
  ℕ, List, Option, String, Default, Outcome, value, ◌>>=◌, unwrap, if◌then◌else◌, is_some,
}
use verfploeter.Schema.Metadata.{Metadata}
use verfploeter.Client.Tasks.{client_metadata}

pub record ClientConfig : Type 0 where
  pub grpc_host : String
  pub client_hostname : String
  pub certificate : Option (List ℕ)

-- The channel's host, and the root certificate of a secure one.
pub data Channel : Type 0 where
  secure_connect : String → List ℕ → Channel
  connect : String → Channel

-- `version` is the crate's version at the build.
unfoldable pub new :
    {U : Type 0} ⦃u : Default U⦄ → String → ClientConfig → Outcome (Channel × Metadata U)
new version config = do
  channel ←
      if is_some config.certificate
      then (unwrap config.certificate >>= (λ root. value (secure_connect config.grpc_host root)))
      else value (connect config.grpc_host)
  value (channel, client_metadata config.client_hostname version)
