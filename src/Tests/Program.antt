-- ===== src/Tests/Program.antt =====
-- What the program starts, for concrete arguments.
use verfploeter.Prelude.{
  ℕ, ◌≡◌, refl, true, List, [], ◌∷◌, Option, some, none, String, value, panic, ◌>>=◌,
}
use verfploeter.Server.Setup
use verfploeter.Server.Setup.{bind, bind_secure}
use verfploeter.Program.{server_config, client_config}
use verfploeter.Tests.Crates.Wire.{unit_default}

-- Every file opens, and every text is the number 50001.
abbrev read : String → Option (List ℕ)
read path = some (1 ∷ 2 ∷ [])

abbrev parse : String → Option ℕ
parse text = some 50001

-- A certificate without its key is not read, and the server listens without TLS.
certificate_alone :
    (server_config read parse
        (record { certificate = some "cert.pem"; private_key = none; port = none })
      >>= Setup.new (λ l. true))
    ≡ value (bind 50001)
unfolding server_config Setup.new
certificate_alone = refl

certificate_and_key :
    (server_config read parse
        (record { certificate = some "cert.pem"; private_key = some "key.pem"; port = none })
      >>= Setup.new (λ l. true))
    ≡ value (bind_secure (1 ∷ 2 ∷ []) (1 ∷ 2 ∷ []) 50001)
unfolding server_config Setup.new
certificate_and_key = refl

without_hostname :
    client_config read
      (λ text. none)
      (record { certificate = none; server = some "127.0.0.1:50001"; hostname = none })
    ≡ panic
unfolding client_config
without_hostname = refl
