-- ===== src/Server/Setup.antt =====
-- `Server::new` in src/server/mod.rs: what the server listens with. The builders of grpcio are the
-- parameter `builds`: whether the server could be built and bound.
use verfploeter.Prelude.{
  ℕ, Bool, ◌&&◌, List, Option, some, none, Outcome, value, panic, ◌>>=◌, unwrap, if◌then◌else◌,
  is_some, ◌≡◌, refl,
}

pub record ServerConfig : Type 0 where
  pub certificate : Option (List ℕ)
  pub private_key : Option (List ℕ)
  pub port : ℕ

-- The certificate, the private key and the port, or the port alone.
pub data Listener : Type 0 where
  bind_secure : List ℕ → List ℕ → ℕ → Listener
  bind : ℕ → Listener

module _ (builds : Listener → Bool) where
  build : Listener → Outcome Listener
  build l = if builds l then value l else panic

  unfoldable pub create_secure_server : ServerConfig → Outcome Listener
  unfolding build
  create_secure_server config = do
    certificate ← unwrap config.certificate
    private_key ← unwrap config.private_key
    build (bind_secure certificate private_key config.port)

  unfoldable pub create_insecure_server : ServerConfig → Outcome Listener
  unfolding build
  create_insecure_server config = build (bind config.port)

  unfoldable pub new : ServerConfig → Outcome Listener
  unfolding create_secure_server create_insecure_server
  new config =
      if is_some config.certificate && is_some config.private_key
      then create_secure_server config
      else create_insecure_server config

  -- Neither `unwrap` fails: a server that can be built is made, with TLS exactly if there are both a
  -- certificate and a private key.
  listens : Option (List ℕ) → Option (List ℕ) → ℕ → Listener
  listens (some certificate) (some private_key) port = bind_secure certificate private_key port
  listens (some certificate) none port = bind port
  listens none private_key port = bind port

  new-listens :
      (certificate private_key : Option (List ℕ)) (port : ℕ)
      → new (record { certificate = certificate; private_key = private_key; port = port })
        ≡ build (listens certificate private_key port)
  unfolding new build listens
  new-listens (some certificate) (some private_key) port = refl
  new-listens (some certificate) none port = refl
  new-listens none private_key port = refl
