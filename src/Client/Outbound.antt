-- ===== src/Client/Outbound.antt =====
-- src/client/handlers/ping_outbound.rs: performing one ping task. Sockets, the clock, the rate limiter of the crate `ratelimit_meter`
-- and the server are a parameter over the world that they change. The wait of ten seconds before
-- the notification only delays it, and is not modelled.
pub mod Counting
pub mod Echo
pub mod Threads
use verfploeter.Prelude.{
  ℕ, ◌≡◌, ◌+◌, ◌%◌, ◌^◌, Bool, true, false, List, [], ◌∷◌, Option, Default, Outcome, value, panic,
  ◌>>=◌, unwrap, if◌then◌else◌,
}
use verfploeter.Net.Cursor.{ByteOrder}
use verfploeter.Net.Packet.{echo_request}
use verfploeter.Schema.Wire.{Protobuf}
use verfploeter.Schema.Signed.{SignedResult, ok, HmacSha256, to_signed_bytes}
use verfploeter.Schema.Address
use verfploeter.Schema.Address.{Address}
use verfploeter.Schema.Ping
use verfploeter.Schema.PingPayload
use verfploeter.Schema.PingPayload.{PingPayload}
use verfploeter.Schema.Task
use verfploeter.Schema.Task.{Task}
use verfploeter.Schema.TaskId.{TaskId}
use verfploeter.Client.Handlers.{current_timestamp}
use verfploeter.Client.Inbound.{secret}

-- The rate limiter lets a packet through after some failed checks, with a pause after each.
pub data Admits {W : Type 0} (check : W → W × Bool) (sleep : W → W) : W → Type 0 where
  admitted : {world : W} → (check world).1 ≡ true → Admits check sleep world
  delayed :
      {world : W}
      → (check world).1 ≡ false
      → Admits check sleep (sleep (check world).0)
      → Admits check sleep world

-- What the thread asks of its surroundings. A `Bool` tells whether the call was `Ok`.
pub record Network (U W : Type 0) : Type 0 where
  -- Opens a raw socket bound to the address.
  pub bind : ℕ → W → W × Bool
  -- `SystemTime::now().duration_since(UNIX_EPOCH)`, in nanoseconds; the clock may be before it.
  pub duration_since_epoch : W → W × Option ℕ
  -- `lb.check()`, and the pause of a millisecond.
  pub check : W → W × Bool
  pub sleep : W → W
  -- A bucket that leaks lets the next packet through in the end.
  pub drains : (world : W) → Admits check sleep world
  -- The bytes and the destination.
  pub send_to : List ℕ → ℕ → W → W × Bool
  pub task_finished : TaskId U → W → W × Bool

-- The world, PACKETS_TRANSMITTED_OK and PACKETS_TRANSMITTED_ERROR.
pub record Sent (W : Type 0) : Type 0 where
  pub world : W
  pub transmitted_ok : ℕ
  pub transmitted_error : ℕ

-- `while let Err(_) = lb.check() { sleep }`: the world behind the loop.
unfoldable pub rate_limit :
    {W : Type 0} {check : W → W × Bool} {sleep : W → W} (world : W) → Admits check sleep world → W
rate_limit {check = check} world (admitted e) = (check world).0
rate_limit {check = check} {sleep = sleep} world (delayed e later) =
    rate_limit (sleep (check world).0) later

unwrap_signed : {A : Type 0} → SignedResult A → Outcome A
unwrap_signed r = elim r [ ok a ↦ value a | _ ↦ panic ]

expect_delivered : {A : Type 0} → Bool → A → Outcome A
expect_delivered delivered a = if delivered then value a else panic

module _ {U : Type 0} ⦃u : Default U⦄ where
  unfoldable pub ping_payload : Task U → Address U → ℕ → PingPayload U
  ping_payload task ip now = PingPayload.set_transmit_time now (
      PingPayload.set_task_id (Task.get_task_id task) (
        PingPayload.set_destination_address ip (
          PingPayload.set_source_address (Ping.get_source_address (Task.get_ping task))
            PingPayload.new)))

module _ {U : Type 0} ⦃u : Default U⦄ (b : ByteOrder) (w : Protobuf U) (h : HmacSha256) where
  -- The bytes of one echo request.
  unfoldable pub ping_request : Task U → Address U → ℕ → Outcome (List ℕ)
  unfolding unwrap_signed ping_payload
  ping_request task ip now = do
    signed ← unwrap_signed (to_signed_bytes w h (ping_payload task ip now) secret)
    value (echo_request b 1 2 signed)

  module _ {W : Type 0} (net : Network U W) where
    -- One round of `for ip in destination_addresses`.
    unfoldable pub send_ping : Task U → Address U → Sent W → Outcome (Sent W)
    unfolding current_timestamp rate_limit
    send_ping task ip s = do
      let (clocked, since) = net.duration_since_epoch s.world
      now ← current_timestamp since
      icmp ← ping_request task ip now
      let (world, delivered) =
          net.send_to icmp (Address.get_v4 ip) (rate_limit clocked (net.drains clocked))
      value (
          if delivered
          then record s { world = world; transmitted_ok = s.transmitted_ok + 1 }
          else record s { world = world; transmitted_error = s.transmitted_error + 1 })

    send_pings : Task U → List (Address U) → Sent W → Outcome (Sent W)
    unfolding send_ping
    send_pings task [] s = value s
    send_pings task (ip ∷ ips) s = send_ping task ip s >>= send_pings task ips

    unfoldable pub perform_ping : Task U → Sent W → Outcome (Sent W)
    unfolding send_pings expect_delivered
    perform_ping task s = do
      let ping = Task.get_ping task
      let (bound, opened) = net.bind (Address.get_v4 (Ping.get_source_address ping)) s.world
      s' ← expect_delivered opened (record s { world = bound })
      send_pings task (Ping.get_destination_addresses ping) s'
