-- ===== src/Client/Outbound/Threads/Notified.antt =====
-- The notifications that the ping threads of ping_outbound.rs deliver.
use verfploeter.Prelude.{
  ℕ, ◌+◌, ◌≡◌, ◌⊎◌, inl, inr, ◌≤◌, ◌==◌, ◌∙◌, ap, refl, subst, Bool, true, false, List, [], ◌∷◌,
  some, Default, arith, All, map, if◌then◌else◌,
}
use verfploeter.Net.Cursor.{ByteOrder}
use verfploeter.Schema.Wire.{Protobuf}
use verfploeter.Schema.Address.{Address}
use verfploeter.Schema.Signed.{HmacSha256, IsMac}
use verfploeter.Schema.Task
use verfploeter.Schema.Task.{Task}
use verfploeter.Schema.TaskId
use verfploeter.Client.Inbound.{secret}
use verfploeter.Client.Outbound.{Network, Sent, Admits, admitted, delayed, rate_limit}
use verfploeter.Client.Outbound.Counting.{send_ping_lem}
use verfploeter.Client.Outbound.Threads.{
  Mutex, Phase, locking, binding, pinging, sleeping, finished, panicked, Thread, Threads, Moved,
  lock, bind, ping_one, notify, advance, Run, move, start, run, Runs, halt, more, Steps, here,
  later, new,
}
use verfploeter.Client.Outbound.Threads.Totals.{sum_of, sum_of-middle}
use verfploeter.Client.Outbound.Threads.Exclusion.{one}
use verfploeter.Client.Outbound.Threads.Progress.{work}
use verfploeter.Client.Outbound.Threads.Finish.{IsUp, tasks, AllFinished, ended_or_moves}

module _ {U : Type 0} ⦃u : Default U⦄ {W : Type 0} (net : Network U W) where
  recorded_drains :
      (log : List ℕ) {world : W}
      → Admits net.check net.sleep world
      → Admits {W = W × List ℕ}
          (λ (world, log). (((net.check world).0, log), (net.check world).1))
          (λ (world, log). (net.sleep world, log))
          (world, log)
  recorded_drains log (admitted e) = admitted e
  recorded_drains log (delayed e rest) = delayed e (recorded_drains log rest)

  -- The network with a record of the task ids whose notification was delivered.
  unfoldable pub recorded : Network U (W × List ℕ)
  unfolding recorded_drains
  recorded = record {
    bind = λ ip (world, log). (((net.bind ip world).0, log), (net.bind ip world).1);
    duration_since_epoch = λ (world, log).
        (((net.duration_since_epoch world).0, log), (net.duration_since_epoch world).1);
    check = λ (world, log). (((net.check world).0, log), (net.check world).1);
    sleep = λ (world, log). (net.sleep world, log);
    drains = λ (world, log). recorded_drains log (net.drains world);
    send_to = λ bytes ip (world, log).
        (((net.send_to bytes ip world).0, log), (net.send_to bytes ip world).1);
    task_finished = λ id (world, log).
        let (world', delivered) = net.task_finished id world in
        ((world', if delivered then TaskId.get_task_id id ∷ log else log), delivered);
  }

  recorded-IsUp : IsUp net → IsUp recorded
  unfolding recorded
  recorded-IsUp up = record {
    clocked = λ (world, log). up.clocked world;
    binds = λ ip (world, log). up.binds ip world;
    delivers = λ id (world, log). up.delivers id world;
  }

  rate_limit-log :
      (log : List ℕ) {world : W} (a : Admits net.check net.sleep world)
      → (rate_limit (world, log) (recorded_drains log a)).1 ≡ log
  unfolding rate_limit recorded_drains
  rate_limit-log log (admitted e) = refl
  rate_limit-log log (delayed e rest) = rate_limit-log log rest

-- How often the number is in the list.
abbrev pub times : ℕ → List ℕ → ℕ
times k = sum_of (λ id. one (id == k))

module _ {U : Type 0} ⦃u : Default U⦄ where
  -- Whether the end of the task with the id was told.
  abbrev told : ℕ → Task U → Phase U → ℕ
  told k task locking = 0
  told k task binding = 0
  told k task (pinging ips) = 0
  told k task sleeping = 0
  told k task finished = one (Task.get_task_id task == k)
  told k task panicked = 0

  abbrev thread_told : ℕ → Thread U → ℕ
  thread_told k t = told k t.task t.phase

either_log :
    {W : Type 0} (delivered : Bool) (s t : Sent (W × List ℕ)) (log : List ℕ)
    → s.world.1 ≡ log
    → t.world.1 ≡ log
    → (if delivered then s else t).world.1 ≡ log
either_log true s t log e e' = e
either_log false s t log e e' = e'

-- The counters, and nothing recorded yet.
abbrev pub from : {W : Type 0} → Sent W → Sent (W × List ℕ)
from s = record {
  world = (s.world, []);
  transmitted_ok = s.transmitted_ok;
  transmitted_error = s.transmitted_error;
}

module _ {U : Type 0} ⦃u : Default U⦄ {W : Type 0} where
  -- Every thread is finished, and the notifications are those of their tasks.
  abbrev pub AllNotified : Threads U (W × List ℕ) → Type 0
  AllNotified s =
      AllFinished s
      × ((k : ℕ) → times k s.sent.world.1 ≡ times k (map (λ t. Task.get_task_id t.task) s.threads))

module _ {U : Type 0} ⦃u : Default U⦄ (b : ByteOrder) (w : Protobuf U) (h : HmacSha256)
    (law : IsMac h) (mac : h.Mac) (key : h.new_varkey secret ≡ some mac) {W : Type 0}
    (net : Network U W) (up : IsUp net) where
  ping_one-log :
      (k : ℕ) (task : Task U) (ip : Address U) (ips : List (Address U)) (m : Mutex)
      (s : Sent (W × List ℕ))
      → ((ping_one b w h (recorded net) task ip ips m s).sent.world.1 ≡ s.world.1)
        × (told k task (ping_one b w h (recorded net) task ip ips m s).phase ≡ 0)
  unfolding ping_one recorded
  ping_one-log k task ip ips m s =
      let clocked = (recorded-IsUp net up).clocked in
      let unsent =
        rate_limit-log net s.world.1 (net.drains (net.duration_since_epoch s.world.0).0) in
      rw (ping_one, send_ping_lem b w h law mac key (recorded net) clocked task ip s)
        (either_log _ _ _ s.world.1 unsent unsent, refl)

  advance-told :
      (k : ℕ) (task : Task U) (p : Phase U) (m : Mutex) (s : Sent (W × List ℕ))
      (v : Moved U (W × List ℕ))
      → advance b w h (recorded net) task p m s ≡ some v
      → times k v.sent.world.1 + told k task p ≡ times k s.world.1 + told k task v.phase
  unfolding advance lock bind notify recorded sum_of
  advance-told k task locking m s v e = ground arith
  advance-told k task binding m s v e = ground arith
  advance-told k task (pinging []) m s v e = ground arith
  advance-told k task (pinging (ip ∷ ips)) m s v e = ground (arith, ping_one-log k task ip ips m s)
  advance-told k task sleeping m s v e = ground arith
  advance-told k task finished m s v e = ground arith
  advance-told k task panicked m s v e = ground arith

  -- The record holds the ids of the threads that have finished, and no others.
  abbrev IsTold : ℕ → Threads U (W × List ℕ) → Type 0
  IsTold k s = times k s.sent.world.1 ≡ sum_of (thread_told k) s.threads

  Run-IsTold :
      (k : ℕ) {s t : Threads U (W × List ℕ)}
      → IsTold k s
      → Run b w h (recorded net) s t
      → IsTold k t
  Run-IsTold k {s} x (move before after t v here_is moved) = omega (
    arith,
    subst (λ ts. times k s.sent.world.1 ≡ sum_of (thread_told k) ts) here_is x,
    advance-told k t.task t.phase s.outbound_mutex s.sent v moved,
    sum_of-middle (thread_told k) before after t,
    sum_of-middle (thread_told k) before after (record { task = t.task; phase = v.phase }),
  )

  Steps-IsTold :
      (k : ℕ) (sent : Sent W) {s : Threads U (W × List ℕ)}
      → Steps b w h (recorded net) (new (from sent)) s
      → IsTold k s
  unfolding sum_of
  Steps-IsTold k sent here = refl
  Steps-IsTold k sent (later {t} r (start task)) = omega (
    arith,
    Steps-IsTold k sent r,
    sum_of-middle (thread_told k) t.threads [] (record { task = task; phase = locking }),
  )
  Steps-IsTold k sent (later r (run r')) = Run-IsTold k (Steps-IsTold k sent r) r'

  Runs-IsTold :
      (k : ℕ) {n : ℕ} {s t : Threads U (W × List ℕ)}
      → IsTold k s
      → Runs b w h (recorded net) s n t
      → IsTold k t
  Runs-IsTold k x halt = x
  Runs-IsTold k x (more r rs) = Runs-IsTold k (Run-IsTold k x r) rs

  finished_told :
      (k : ℕ) (ts : List (Thread U))
      → All (λ t. t.phase ≡ finished) ts
      → sum_of (thread_told k) ts ≡ times k (map (λ t. Task.get_task_id t.task) ts)
  unfolding sum_of
  finished_told k [] all = refl
  finished_told k (t ∷ ts) all = omega (arith, ap (told k t.task) all.0, finished_told k ts all.1)

  -- With a record of the notifications that were delivered. If the key is accepted, the clock is
  -- never before the epoch, the rate limiter lets each packet through in the end, every socket
  -- binds and every notification is delivered, then from every state that the client reaches any
  -- sequence of the threads' moves keeps the tasks and takes no more moves than the work that is
  -- left. Behind it some thread can move on, or all are finished, and then the server was notified
  -- of each task's end once, and of no other.
  pub tasks-Notified :
      (sent : Sent W) (s : Threads U (W × List ℕ)) (n : ℕ) (t : Threads U (W × List ℕ))
      → Steps b w h (recorded net) (new (from sent)) s
      → Runs b w h (recorded net) s n t
      → (tasks t ≡ tasks s)
        × (n ≤ work s)
        × (AllNotified t ⊎ ((v : Threads U (W × List ℕ)) × Run b w h (recorded net) t v))
  tasks-Notified sent s n t r rs =
      let (same, few, next) =
        ended_or_moves b w h law mac key (recorded net) (recorded-IsUp net up) (from sent) s n t r
          rs in
      (
        same,
        few,
        elim next [
          | inl all ↦
              inl
                (all, λ k. Runs-IsTold k (Steps-IsTold k sent r) rs ∙ finished_told k t.threads all)
          | inr moves ↦ inr moves
        ],
      )
