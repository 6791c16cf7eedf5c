-- ===== src/Server/Connections/Lookup.antt =====
-- What the connection manager finds, whatever the order of its map.
use text.Mathlib.Text.{◌==◌ as str_eq}
use text.Mathlib.TextEquality.{eq_iff}
use verfploeter.Prelude.{
  ℕ, ◌+◌, ◌<◌, ◌≡◌, ◌≢◌, List, [], ◌∷◌, none, some, String, arith, ◌==◌, if◌then◌else◌, add32,
  u32_max, Bool-cases, inl, inr, ◌⊎◌, Option-cases,
}
use verfploeter.Server.HashMap.{get, IsMap, get-insert}
use verfploeter.Server.Connections.{
  Connection, ConnectionManager, IsValid, add_connection, generate_connection_id,
  register_connection, get_client_tx_by_idx, get_client_tx_by_hostname, find_hostname, get-unused,
}

module _ {U S : Type 0} where
  -- `id` is the next id and was not in use; `cm'` has the connection under it, and otherwise what
  -- `cm` has.
  pub record IsAdded (c : Connection U S) (cm cm' : ConnectionManager U S) (id : ℕ) : Type 0 where
    pub next : id ≡ cm.connection_id + 1
    pub unused : get_client_tx_by_idx id cm ≡ none
    pub found :
        (j : ℕ)
        → get_client_tx_by_idx j cm'
          ≡ (if id == j then some c.channel else get_client_tx_by_idx j cm)

  -- In a well-formed manager whose counter has room, a new connection gets the next id, which no
  -- other has, and is found under it; every other id finds what it found before.
  pub add_connection-IsAdded :
      (c : Connection U S) (cm : ConnectionManager U S)
      → cm.connection_id < u32_max
      → IsValid cm
      → IsAdded c cm (add_connection c cm).0 (add_connection c cm).1
  unfolding add_connection generate_connection_id register_connection get_client_tx_by_idx
  add_connection-IsAdded c cm room v =
      let id = add32 cm.connection_id 1 in
      record {
        next = omega arith;
        unused = rw (
          get_client_tx_by_idx,
          get-unused cm.connections cm.connection_id id (omega arith) v.bounded,
        );
        found = λ j. ground (arith, get-insert id j c cm.connections);
      }

  -- A connection with the hostname that has the channel.
  abbrev pub Serves : String → ConnectionManager U S → S → Type 0
  Serves hostname cm tx =
      (id : ℕ) × (c : Connection U S) × (get id cm.connections ≡ some c)
      × (c.metadata.hostname ≡ hostname)
      × (c.channel ≡ tx)

  find_hostname-some :
      (hostname : String) (m : List (ℕ × Connection U S)) (tx : S)
      → IsMap m
      → find_hostname hostname m ≡ some tx
      → (id : ℕ) × (c : Connection U S) × (get id m ≡ some c)
        × (c.metadata.hostname ≡ hostname)
        × (c.channel ≡ tx)
  unfolding find_hostname get
  find_hostname-some hostname [] tx h e = cc
  find_hostname-some hostname ((k, v) ∷ m) tx h e =
      elim (Bool-cases (str_eq v.metadata.hostname hostname)) [
        | inl same ↦
            (k, v, ground arith, (eq_iff v.metadata.hostname hostname).0 same, ground arith)
        | inr other ↦
            let (id, c, found, name, channel) =
              find_hostname-some hostname m tx h.1 (ground arith) in
            (id, c, ground (arith, found, h.0), name, channel)
      ]

  find_hostname-none :
      (hostname : String) (m : List (ℕ × Connection U S)) (id : ℕ) (c : Connection U S)
      → find_hostname hostname m ≡ none
      → get id m ≡ some c
      → c.metadata.hostname ≢ hostname
  unfolding find_hostname get
  find_hostname-none hostname [] id c e found = cc
  find_hostname-none hostname ((k, v) ∷ m) id c e found =
      ground (arith, eq_iff v.metadata.hostname hostname, find_hostname-none hostname m id c)

  -- In a well-formed manager the lookup by hostname gives the channel of a connection with that
  -- hostname, or none, and then no connection has it.
  pub get_client_tx_by_hostname-Serves :
      (hostname : String) (cm : ConnectionManager U S)
      → IsValid cm
      → ((tx : S) × (get_client_tx_by_hostname hostname cm ≡ some tx) × Serves hostname cm tx)
        ⊎ ((get_client_tx_by_hostname hostname cm ≡ none) × ((tx : S) → ¬ Serves hostname cm tx))
  unfolding get_client_tx_by_hostname
  get_client_tx_by_hostname-Serves hostname cm v =
      elim (Option-cases (find_hostname hostname cm.connections)) [
        | inl e ↦ inr (
          e,
          λ tx (id, c, found, name, _).
              find_hostname-none hostname cm.connections id c e found name,
        )
        | inr (tx, e) ↦ inl (tx, e, find_hostname-some hostname cm.connections tx v.keys e)
      ]
