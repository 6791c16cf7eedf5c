-- ===== src/Client/Outbound/Threads.antt =====
-- src/client/handlers/ping_outbound.rs: the threads that `start_ping_thread` starts, interleaved in
-- any order, with the mutex that they share. A step is one thread's next action: it takes the
-- mutex, opens its socket, sends one request, drops the guard, or sends its notification. A panic
-- while the guard is held poisons the mutex, as `std::sync::Mutex` documents, and `lock().unwrap()`
-- on a poisoned mutex panics. What spawns the threads, `for_each` in `start`, is the step `start`.
pub mod Totals
pub mod Exclusion
pub mod Progress
pub mod Finish
pub mod Notified
pub mod Poison
use verfploeter.Prelude.{
  ℕ, suc, ◌≡◌, Bool, true, false, not, List, [], ◌∷◌, ◌++◌, Option, none, some, Default, Outcome,
  value, panic, if◌then◌else◌,
}
use verfploeter.Net.Cursor.{ByteOrder}
use verfploeter.Schema.Wire.{Protobuf}
use verfploeter.Schema.Signed.{HmacSha256}
use verfploeter.Schema.Address
use verfploeter.Schema.Address.{Address}
use verfploeter.Schema.Ping
use verfploeter.Schema.Task
use verfploeter.Schema.Task.{Task}
use verfploeter.Schema.TaskId
use verfploeter.Client.Outbound.{Network, Sent, send_ping}

-- `outbound_mutex`: the number that it guards is never used.
pub record Mutex : Type 0 where
  pub held : Bool
  pub poisoned : Bool

-- What a thread does next.
pub data Phase (U : Type 0) : Type 0 where
  locking : Phase U
  binding : Phase U
  -- The destinations that are left; without any, the guard is dropped.
  pinging : List (Address U) → Phase U
  -- The ten seconds before the notification.
  sleeping : Phase U
  finished : Phase U
  panicked : Phase U

pub record Thread (U : Type 0) : Type 0 where
  pub task : Task U
  pub phase : Phase U

pub record Threads (U W : Type 0) : Type 0 where
  pub threads : List (Thread U)
  pub outbound_mutex : Mutex
  pub sent : Sent W

-- What a step leaves.
pub record Moved (U W : Type 0) : Type 0 where
  pub phase : Phase U
  pub outbound_mutex : Mutex
  pub sent : Sent W

-- The guard is dropped by a panic.
abbrev pub unwound : Mutex
unwound = record { held = false; poisoned = true }

module _ {U W : Type 0} where
  -- `outbound_mutex.lock().unwrap()`; it blocks while another thread has the guard.
  unfoldable pub lock : Mutex → Sent W → Option (Moved U W)
  lock m s =
      if m.held
      then none
      else some (
          if m.poisoned
          then record { phase = panicked; outbound_mutex = m; sent = s }
          else record { phase = binding; outbound_mutex = record m { held = true }; sent = s })

module _ {U : Type 0} ⦃u : Default U⦄ (b : ByteOrder) (w : Protobuf U) (h : HmacSha256) {W : Type 0}
    (net : Network U W) where
  unfoldable pub bind : Task U → Mutex → Sent W → Moved U W
  bind task m s =
      let ping = Task.get_ping task in
      let (world, opened) = net.bind (Address.get_v4 (Ping.get_source_address ping)) s.world in
      let s' : Sent W = record s { world = world } in
      if opened
      then record {
        phase = pinging (Ping.get_destination_addresses ping);
        outbound_mutex = m;
        sent = s';
      }
      else record { phase = panicked; outbound_mutex = unwound; sent = s' }

  unfoldable pub ping_one : Task U → Address U → List (Address U) → Mutex → Sent W → Moved U W
  ping_one task ip ips m s = elim (send_ping b w h net task ip s) [
    | value s' ↦ record { phase = pinging ips; outbound_mutex = m; sent = s' }
    | panic ↦ record {
      phase = panicked;
      outbound_mutex = unwound;
      sent = record s { world = (net.duration_since_epoch s.world).0 };
    }
  ]

  unfoldable pub notify : Task U → Mutex → Sent W → Moved U W
  notify task m s =
      let task_id = TaskId.set_task_id (Task.get_task_id task) TaskId.new in
      let (world, delivered) = net.task_finished task_id s.world in
      record {
        phase = if delivered then finished else panicked;
        outbound_mutex = m;
        sent = record s { world = world };
      }

  -- A thread's next action, if there is one and it does not block.
  unfoldable pub advance : Task U → Phase U → Mutex → Sent W → Option (Moved U W)
  advance task locking m s = lock m s
  advance task binding m s = some (bind task m s)
  advance task (pinging []) m s =
      some (record { phase = sleeping; outbound_mutex = record m { held = false }; sent = s })
  advance task (pinging (ip ∷ ips)) m s = some (ping_one task ip ips m s)
  advance task sleeping m s = some (notify task m s)
  advance task finished m s = none
  advance task panicked m s = none

  pub data Run (s : Threads U W) : Threads U W → Type 0 where
    move :
        (before after : List (Thread U)) (t : Thread U) (m : Moved U W)
        → s.threads ≡ before ++ (t ∷ after)
        → advance t.task t.phase s.outbound_mutex s.sent ≡ some m
        → Run s (record {
          threads = before ++ (record { task = t.task; phase = m.phase } ∷ after);
          outbound_mutex = m.outbound_mutex;
          sent = m.sent;
        })

  pub data Step (s : Threads U W) : Threads U W → Type 0 where
    start :
        (task : Task U)
        → Step s
            (record s { threads = s.threads ++ (record { task = task; phase = locking } ∷ []) })
    run : {t : Threads U W} → Run s t → Step s t

  -- So many moves, without new threads.
  pub data Runs : Threads U W → ℕ → Threads U W → Type 0 where
    halt : {s : Threads U W} → Runs s 0 s
    more : {n : ℕ} {s t v : Threads U W} → Run s t → Runs t n v → Runs s (suc n) v

  -- Any number of steps.
  pub data Steps (s : Threads U W) : Threads U W → Type 0 where
    here : Steps s s
    later : {t v : Threads U W} → Steps s t → Step t v → Steps s v

-- As `PingOutbound::new` makes it: no thread, and the mutex free.
abbrev pub new : {U W : Type 0} → Sent W → Threads U W
new s = record {
  threads = [];
  outbound_mutex = record { held = false; poisoned = false };
  sent = s;
}
