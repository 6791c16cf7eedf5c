-- ===== src/Server/Connections.antt =====
-- ConnectionManager. `S` is the type Sender<Task>; a lock is held for one operation, so an operation
-- is one step. The counter wraps, as it does in a release build.
use text.Mathlib.Text.{◌==◌ as str_eq}
use text.Mathlib.TextEquality.{eq_iff}
pub mod Lookup
use verfploeter.Prelude.{
  ℕ, suc, ◌+◌, ◌≤◌, ◌<◌, ◌≡◌, ◌≢◌, refl, ap, Bool, true, false, List, [], ◌∷◌, Option, none, some,
  String, arith, ◌==◌, if◌then◌else◌, All, add32, u32_max, Bool-cases, inl, inr, ◌↔◌,
}
use verfploeter.Schema.Metadata.{Metadata}
use verfploeter.Server.HashMap.{
  get, insert, remove, IsMap, get-insert, get-remove, insert-IsMap, remove-IsMap, insert-All,
  remove-All,
}

pub record Connection (U S : Type 0) : Type 0 where
  pub channel : S
  pub metadata : Metadata U

pub record ConnectionManager (U S : Type 0) : Type 0 where
  pub connections : List (ℕ × Connection U S)
  pub connection_id : ℕ

module _ {U S : Type 0} where
  abbrev pub new : ConnectionManager U S
  new = record { connections = []; connection_id = 0 }

  unfoldable pub generate_connection_id : ConnectionManager U S → ConnectionManager U S × ℕ
  generate_connection_id cm =
      let counter = add32 cm.connection_id 1 in (record cm { connection_id = counter }, counter)

  unfoldable pub register_connection :
      ℕ → Connection U S → ConnectionManager U S → ConnectionManager U S
  register_connection connection_id connection cm = record cm {
    connections = insert connection_id connection cm.connections;
  }

  unfoldable pub unregister_connection : ℕ → ConnectionManager U S → ConnectionManager U S
  unregister_connection connection_id cm = record cm {
    connections = remove connection_id cm.connections;
  }

  unfoldable pub get_client_tx_by_idx : ℕ → ConnectionManager U S → Option S
  get_client_tx_by_idx connection_id cm = elim (get connection_id cm.connections) [
    | some v ↦ some v.channel
    | none ↦ none
  ]

  find_hostname : String → List (ℕ × Connection U S) → Option S
  find_hostname hostname [] = none
  find_hostname hostname ((k, v) ∷ m) =
      if str_eq v.metadata.hostname hostname then some v.channel else find_hostname hostname m

  unfoldable pub get_client_tx_by_hostname : String → ConnectionManager U S → Option S
  unfolding find_hostname
  get_client_tx_by_hostname hostname cm = find_hostname hostname cm.connections

  -- Each id has one connection, and ids run from 1 to the counter.
  pub record IsValid (cm : ConnectionManager U S) : Type 0 where
    pub keys : IsMap cm.connections
    pub bounded : All (λ e. (0 < e.0) × (e.0 ≤ cm.connection_id)) cm.connections

  -- A new connection: an id, and the connection under it.
  unfoldable pub add_connection : Connection U S → ConnectionManager U S → ConnectionManager U S × ℕ
  add_connection connection cm =
      let (counted, id) = generate_connection_id cm in
      (register_connection id connection counted, id)

  bounded-raise :
      (m : List (ℕ × Connection U S)) (a b : ℕ)
      → a ≤ b
      → All (λ e. (0 < e.0) × (e.0 ≤ a)) m
      → All (λ e. (0 < e.0) × (e.0 ≤ b)) m
  bounded-raise [] a b le h = tt
  bounded-raise ((k, v) ∷ m) a b le h = ((h.0.0, omega arith), bounded-raise m a b le h.1)

  get-unused :
      (m : List (ℕ × Connection U S)) (a k : ℕ)
      → a < k
      → All (λ e. (0 < e.0) × (e.0 ≤ a)) m
      → get k m ≡ none
  unfolding get
  get-unused [] a k lt h = refl
  get-unused ((j, v) ∷ m) a k lt h = ground (arith, get-unused m a k lt h.1)

  pub add_connection-IsValid :
      (c : Connection U S) (cm : ConnectionManager U S)
      → cm.connection_id < u32_max
      → IsValid cm
      → IsValid (add_connection c cm).0
  unfolding add_connection generate_connection_id register_connection
  add_connection-IsValid c cm room v =
      let counter : add32 cm.connection_id 1 ≡ cm.connection_id + 1 = omega arith in
      rw counter (record {
        keys = insert-IsMap (cm.connection_id + 1) c cm.connections v.keys;
        bounded = insert-All _ (cm.connection_id + 1) c cm.connections (omega arith) (
            bounded-raise cm.connections cm.connection_id (cm.connection_id + 1) (omega arith)
              v.bounded);
      })

  pub unregister-IsValid :
      (id : ℕ) (cm : ConnectionManager U S) → IsValid cm → IsValid (unregister_connection id cm)
  unfolding unregister_connection
  unregister-IsValid id cm v = record {
    keys = remove-IsMap id cm.connections v.keys;
    bounded = remove-All _ id cm.connections v.bounded;
  }

  pub add_connection-connection_id :
      (c : Connection U S) (cm : ConnectionManager U S)
      → cm.connection_id < u32_max
      → (add_connection c cm).0.connection_id ≡ cm.connection_id + 1
  unfolding add_connection generate_connection_id register_connection
  add_connection-connection_id c cm room = omega arith

  pub unregister-connection_id :
      (id : ℕ) (cm : ConnectionManager U S)
      → (unregister_connection id cm).connection_id ≡ cm.connection_id
  unfolding unregister_connection
  unregister-connection_id id cm = refl
