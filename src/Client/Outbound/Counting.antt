-- ===== src/Client/Outbound/Counting.antt =====
-- The ping loop ends, and counts every destination once, as sent or as failed.
use verfploeter.Prelude.{
  ℕ, suc, ◌+◌, ◌%◌, ◌^◌, ◌≡◌, refl, true, List, [], ◌∷◌, ◌++◌, if◌then◌else◌, some, Default, value,
  arith, length,
}
use verfploeter.Net.Cursor.{ByteOrder}
use verfploeter.Net.Packet.{echo_request}
use verfploeter.Schema.Wire.{Protobuf}
use verfploeter.Schema.PingPayload
use verfploeter.Schema.PingPayload.{PingPayload}
use verfploeter.Schema.Signed.{HmacSha256, IsMac}
use verfploeter.Schema.Signed.Authentic.{to_signed_bytes-ok}
use verfploeter.Schema.Address
use verfploeter.Schema.Address.{Address}
use verfploeter.Schema.Ping
use verfploeter.Schema.Task
use verfploeter.Schema.Task.{Task}
use verfploeter.Client.Handlers.{current_timestamp}
use verfploeter.Client.Inbound.{secret}
use verfploeter.Client.Outbound.{
  Network, Sent, rate_limit, ping_payload, ping_request, send_ping, send_pings, perform_ping,
  expect_delivered,
}

abbrev pub total : {W : Type 0} → Sent W → ℕ
total s = s.transmitted_ok + s.transmitted_error

-- The clock is never before the epoch.
abbrev pub IsClocked : {U W : Type 0} → Network U W → Type 0
IsClocked {U} {W} net =
    (world : W) → (nanos : ℕ) × ((net.duration_since_epoch world).1 ≡ some nanos)

module _ {U : Type 0} ⦃u : Default U⦄ (w : Protobuf U) (h : HmacSha256) (mac : h.Mac) where
  -- A payload and its code.
  unfoldable pub signed_bytes : PingPayload U → List ℕ
  signed_bytes m = PingPayload.write_to w m ++ h.code (h.input mac (PingPayload.write_to w m))

module _ {U : Type 0} ⦃u : Default U⦄ (b : ByteOrder) (w : Protobuf U) (h : HmacSha256)
    (law : IsMac h) (mac : h.Mac) (key : h.new_varkey secret ≡ some mac) where
  -- With an accepted key a request is built: the signed payload of the destination in an echo.
  pub ping_request_lem :
      (task : Task U) (ip : Address U) (now : ℕ)
      → ping_request b w h task ip now
        ≡ value (echo_request b 1 2 (signed_bytes w h mac (ping_payload task ip now)))
  unfolding ping_request signed_bytes
  ping_request_lem task ip now =
      ground (arith, to_signed_bytes-ok w h law (ping_payload task ip now) secret mac key)

  module _ {W : Type 0} (net : Network U W) (clock : IsClocked net) where
    -- The stamp of a request and the world in which it is sent.
    abbrev stamp : W → ℕ
    stamp world = (clock world).0 % 2 ^ 64

    abbrev released : W → W
    released world =
        let clocked = (net.duration_since_epoch world).0 in rate_limit clocked (net.drains clocked)

    abbrev request_at : Task U → Address U → W → List ℕ
    request_at task ip world =
        echo_request b 1 2 (signed_bytes w h mac (ping_payload task ip (stamp world)))

    -- A round of the loop does not panic: it sends the request, and counts how that went.
    pub send_ping_lem :
        (task : Task U) (ip : Address U) (s : Sent W)
        → let (world, delivered) =
            net.send_to (request_at task ip s.world) (Address.get_v4 ip) (released s.world) in
          send_ping b w h net task ip s
          ≡ value (
              if delivered
              then record s { world = world; transmitted_ok = s.transmitted_ok + 1 }
              else record s { world = world; transmitted_error = s.transmitted_error + 1 })
    unfolding send_ping current_timestamp
    send_ping_lem task ip s = rw ((clock s.world).1, ping_request_lem task ip (stamp s.world)) refl

    pub send_ping-total :
        (task : Task U) (ip : Address U) (s : Sent W)
        → (t : Sent W) × (send_ping b w h net task ip s ≡ value t) × (total t ≡ suc (total s))
    send_ping-total task ip s = (_, send_ping_lem task ip s, ground arith)

    send_pings-total :
        (task : Task U) (ips : List (Address U)) (s : Sent W)
        → (t : Sent W) × (send_pings b w h net task ips s ≡ value t)
          × (total t ≡ total s + length ips)
    unfolding send_pings
    send_pings-total task [] s = (s, refl, omega arith)
    send_pings-total task (ip ∷ ips) s =
        let (s', sent, one) = send_ping-total task ip s in
        let (t, rest, many) = send_pings-total task ips s' in
        (t, rw (sent, send_pings) rest, omega arith)

    -- With an accepted key, a clock that is never before the epoch, a rate limiter that lets each
    -- packet through in the end, and a socket that binds, performing a task ends without a panic,
    -- and each destination is counted once, as sent or as failed.
    pub perform_ping-total :
        (task : Task U) (s : Sent W)
        → (net.bind (Address.get_v4 (Ping.get_source_address (Task.get_ping task))) s.world).1
          ≡ true
        → (t : Sent W) × (perform_ping b w h net task s ≡ value t)
          × (total t ≡ total s + length (Ping.get_destination_addresses (Task.get_ping task)))
    unfolding perform_ping
    perform_ping-total task s opened =
        let ping = Task.get_ping task in
        let (world, _) = net.bind (Address.get_v4 (Ping.get_source_address ping)) s.world in
        let bound = record s { world = world } in
        let (t, sent, many) = send_pings-total task (Ping.get_destination_addresses ping) bound in
        (t, rw (opened, expect_delivered) sent, many)
