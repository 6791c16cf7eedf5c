-- ===== src/Program.antt =====
-- src/main.rs: what the subcommands start. The file system and the parser of numbers are parameters;
-- the arguments are what clap gives.
use verfploeter.Prelude.{ℕ, List, Option, some, none, String, Outcome, value, ◌>>=◌, unwrap}
use verfploeter.Server.Setup.{ServerConfig}
use verfploeter.Client.Setup.{ClientConfig}

pub record ServerArgs : Type 0 where
  pub certificate : Option String
  pub private_key : Option String
  pub port : Option String

pub record ClientArgs : Type 0 where
  pub certificate : Option String
  pub server : Option String
  pub hostname : Option String

abbrev unwrap_or : {A : Type 0} → A → Option A → A
unwrap_or d (some a) = a
unwrap_or d none = d

-- `read` gives the content of a file, or nothing if it does not open or cannot be read.
module _ (read : String → Option (List ℕ)) (parse : String → Option ℕ) where
  unfoldable pub read_file_content : String → Outcome (Option (List ℕ))
  read_file_content path = do content ← unwrap (read path); value (some content)

  read_pair : Option String → Option String → Outcome (Option (List ℕ) × Option (List ℕ))
  unfolding read_file_content
  read_pair (some certificate_path) (some private_key_path) = do
    certificate ← read_file_content certificate_path
    private_key ← read_file_content private_key_path
    value (certificate, private_key)
  read_pair (some certificate_path) none = value (none, none)
  read_pair none private_key = value (none, none)

  unfoldable pub server_config : ServerArgs → Outcome ServerConfig
  unfolding read_pair
  server_config args = do
    (certificate, private_key) ← read_pair args.certificate args.private_key
    port ← unwrap (parse (unwrap_or "50001" args.port))
    value (record { certificate = certificate; private_key = private_key; port = port })

  read_certificate : Option String → Outcome (Option (List ℕ))
  unfolding read_file_content
  read_certificate (some certificate_path) = read_file_content certificate_path
  read_certificate none = value none

  unfoldable pub client_config : ClientArgs → Outcome ClientConfig
  unfolding read_certificate
  client_config args = do
    certificate ← read_certificate args.certificate
    grpc_host ← unwrap args.server
    client_hostname ← unwrap args.hostname
    value (record {
      grpc_host = grpc_host;
      client_hostname = client_hostname;
      certificate = certificate;
    })
