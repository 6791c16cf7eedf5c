-- ===== src/Client/Outbound/Threads/Finish.antt =====
-- How the ping threads end when nothing fails.
use verfploeter.Prelude.{
  ℕ, ◌≡◌, ◌⊎◌, inl, inr, ◌≤◌, ◌∙◌, refl, sym, ap, true, false, List, [], ◌∷◌, ◌++◌, some, Default,
  arith, subst, All, map,
}
use verfploeter.Net.Cursor.{ByteOrder}
use verfploeter.Schema.Wire.{Protobuf}
use verfploeter.Schema.Address
use verfploeter.Schema.Ping
use verfploeter.Schema.Task
use verfploeter.Schema.TaskId
use verfploeter.Schema.Address.{Address}
use verfploeter.Schema.Signed.{HmacSha256, IsMac}
use verfploeter.Schema.Task.{Task}
use verfploeter.Schema.TaskId.{TaskId}
use verfploeter.Client.Inbound.{secret}
use verfploeter.Client.Outbound.{Network, Sent}
use verfploeter.Client.Outbound.Counting.{IsClocked, send_ping-total}
use verfploeter.Client.Outbound.Threads.{
  Mutex, Phase, locking, binding, pinging, sleeping, finished, panicked, Thread, Threads, Moved,
  lock, bind, ping_one, notify, advance, Run, move, start, run, Runs, halt, more, Steps, here,
  later, new,
}
use verfploeter.Client.Outbound.Threads.Totals.{sum_of, sum_of-middle}
use verfploeter.Client.Outbound.Threads.Progress.{left, thread_left, work, Runs-progress}

-- Every socket binds, the clock is never before the epoch and every notification is delivered.
pub record IsUp {U W : Type 0} (net : Network U W) : Type 0 where
  pub clocked : IsClocked net
  pub binds : (address : ℕ) (world : W) → (net.bind address world).1 ≡ true
  pub delivers : (task_id : TaskId U) (world : W) → (net.task_finished task_id world).1 ≡ true

module _ {U : Type 0} where
  abbrev failures : Phase U → ℕ
  failures locking = 0
  failures binding = 0
  failures (pinging ips) = 0
  failures sleeping = 0
  failures finished = 0
  failures panicked = 1

  abbrev thread_failures : Thread U → ℕ
  thread_failures t = failures t.phase

module _ {U W : Type 0} where
  abbrev IsSound : Threads U W → Type 0
  IsSound s = (s.outbound_mutex.poisoned ≡ false) × (sum_of thread_failures s.threads ≡ 0)

  abbrev pub tasks : Threads U W → List (Task U)
  tasks s = map (λ t. t.task) s.threads

  abbrev pub AllFinished : Threads U W → Type 0
  AllFinished s = All (λ t. t.phase ≡ finished) s.threads

module _ {U : Type 0} ⦃u : Default U⦄ (b : ByteOrder) (w : Protobuf U) (h : HmacSha256)
    (law : IsMac h) (mac : h.Mac) (key : h.new_varkey secret ≡ some mac) {W : Type 0}
    (net : Network U W) (up : IsUp net) where
  ping_one_sound :
      (task : Task U) (ip : Address U) (ips : List (Address U)) (m : Mutex) (s : Sent W)
      → (failures (ping_one b w h net task ip ips m s).phase ≡ 0)
        × ((ping_one b w h net task ip ips m s).outbound_mutex ≡ m)
  unfolding ping_one
  ping_one_sound task ip ips m s =
      let (t, sent, one) = send_ping-total b w h law mac key net up.clocked task ip s in
      (rw (failures, ping_one, sent) refl, rw (ping_one, sent) refl)

  advance_sound :
      (task : Task U) (p : Phase U) (m : Mutex) (s : Sent W) (v : Moved U W)
      → advance b w h net task p m s ≡ some v
      → m.poisoned ≡ false
      → (v.outbound_mutex.poisoned ≡ false) × (failures v.phase ≡ 0)
  unfolding advance lock bind notify
  advance_sound task locking m s v e sound = ground arith
  advance_sound task binding m s v e sound =
      ground
        (arith, up.binds (Address.get_v4 (Ping.get_source_address (Task.get_ping task))) s.world)
  advance_sound task (pinging []) m s v e sound = ground arith
  advance_sound task (pinging (ip ∷ ips)) m s v e sound =
      ground (arith, ping_one_sound task ip ips m s)
  advance_sound task sleeping m s v e sound =
      ground (arith, up.delivers (TaskId.set_task_id (Task.get_task_id task) TaskId.new) s.world)
  advance_sound task finished m s v e sound = ground arith
  advance_sound task panicked m s v e sound = ground arith

  Run-IsSound : {s t : Threads U W} → IsSound s → Run b w h net s t → IsSound t
  Run-IsSound {s} x (move before after t v here_is moved) =
      let a = advance_sound t.task t.phase s.outbound_mutex s.sent v moved x.0 in
      let now = subst (λ ts. sum_of thread_failures ts ≡ 0) here_is x.1 in
      (
        a.0,
        omega (
          arith,
          a.1,
          now,
          sum_of-middle thread_failures before after t,
          sum_of-middle thread_failures before after (record { task = t.task; phase = v.phase }),
        ),
      )

  Steps-IsSound : {s t : Threads U W} → IsSound s → Steps b w h net s t → IsSound t
  unfolding sum_of
  Steps-IsSound x here = x
  Steps-IsSound x (later {t} r (start task)) =
      let y = Steps-IsSound x r in
      (
        y.0,
        omega (
          arith,
          y.1,
          sum_of-middle thread_failures t.threads [] (record { task = task; phase = locking }),
        ),
      )
  Steps-IsSound x (later r (run r')) = Run-IsSound (Steps-IsSound x r) r'

  Runs-IsSound : {n : ℕ} {s t : Threads U W} → IsSound s → Runs b w h net s n t → IsSound t
  Runs-IsSound x halt = x
  Runs-IsSound x (more r rs) = Runs-IsSound (Run-IsSound x r) rs

  tasks-middle :
      (before after : List (Thread U)) (t t' : Thread U)
      → t.task ≡ t'.task
      → map (λ (t : Thread U). t.task) (before ++ (t ∷ after))
        ≡ map (λ (t : Thread U). t.task) (before ++ (t' ∷ after))
  tasks-middle [] after t t' e = ap (λ x. x ∷ map (λ (t : Thread U). t.task) after) e
  tasks-middle (x ∷ before) after t t' e = ap (◌∷◌ x.task) (tasks-middle before after t t' e)

  Runs-tasks : {n : ℕ} {s t : Threads U W} → Runs b w h net s n t → tasks t ≡ tasks s
  Runs-tasks halt = refl
  Runs-tasks (more {s} (move before after t v here_is moved) rs) =
      Runs-tasks rs
      ∙ tasks-middle before after (record { task = t.task; phase = v.phase }) t refl
      ∙ ap (map (λ (t : Thread U). t.task)) (sym here_is)

  ended_well : (task : Task U) (p : Phase U) → left task p ≡ 0 → failures p ≡ 0 → p ≡ finished
  ended_well task locking e f = absurd (omega arith)
  ended_well task binding e f = absurd (omega arith)
  ended_well task (pinging ips) e f = absurd (omega arith)
  ended_well task sleeping e f = absurd (omega arith)
  ended_well task finished e f = refl
  ended_well task panicked e f = absurd (omega arith)

  all_ended :
      (ts : List (Thread U))
      → sum_of thread_left ts ≡ 0
      → sum_of thread_failures ts ≡ 0
      → All (λ t. t.phase ≡ finished) ts
  unfolding sum_of
  all_ended [] e f = tt
  all_ended (t ∷ ts) e f = (
    ended_well t.task t.phase (omega arith) (omega arith),
    all_ended ts (omega arith) (omega arith),
  )

  -- Where no thread can move, each has ended well.
  pub ended_or_moves :
      (sent : Sent W) (s : Threads U W) (n : ℕ) (t : Threads U W)
      → Steps b w h net (new sent) s
      → Runs b w h net s n t
      → (tasks t ≡ tasks s)
        × (n ≤ work s)
        × (AllFinished t ⊎ ((v : Threads U W) × Run b w h net t v))
  unfolding sum_of
  ended_or_moves sent s n t r rs =
      let (few, next) = Runs-progress b w h net sent s n t r rs in
      let sound = Runs-IsSound (Steps-IsSound (refl, refl) r) rs in
      (
        Runs-tasks rs,
        omega (arith, few),
        elim next [ inl e ↦ inl (all_ended t.threads e sound.1) | inr moves ↦ inr moves ],
      )
