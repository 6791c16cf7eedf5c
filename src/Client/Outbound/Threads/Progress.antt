-- ===== src/Client/Outbound/Threads/Progress.antt =====
-- The threads end.
use verfploeter.Prelude.{
  ℕ, zero, suc, ◌+◌, ◌≡◌, ◌≤◌, ◌<◌, ◌⊎◌, inl, inr, refl, ap, Bool-cases, true, false, List, [], ◌∷◌,
  ◌++◌, some, Default, arith, if◌then◌else◌, length,
}
use verfploeter.Net.Cursor.{ByteOrder}
use verfploeter.Schema.Wire.{Protobuf}
use verfploeter.Schema.Signed.{HmacSha256}
use verfploeter.Schema.Ping
use verfploeter.Schema.Task
use verfploeter.Schema.Task.{Task}
use verfploeter.Client.Outbound.{Network, Sent}
use verfploeter.Client.Outbound.Threads.{
  Mutex, Phase, locking, binding, pinging, sleeping, finished, panicked, Thread, Threads, Moved,
  lock, bind, ping_one, notify, advance, Run, move, run, Runs, halt, more, Steps, new,
}
use verfploeter.Client.Outbound.Threads.Totals.{sum_of, sum_of-middle}
use verfploeter.Client.Outbound.Threads.Exclusion.{
  holds, holding, one, IsExclusive, Step-IsExclusive, Steps-IsExclusive, new-IsExclusive,
}

zero_or_positive : (n : ℕ) → (n ≡ 0) ⊎ (0 < n)
zero_or_positive zero = inl refl
zero_or_positive (suc n) = inr (omega arith)

module _ {U : Type 0} ⦃u : Default U⦄ where
  abbrev pub destinations : Task U → ℕ
  destinations task = length (Ping.get_destination_addresses (Task.get_ping task))

  -- At most so many actions are left.
  abbrev pub left : Task U → Phase U → ℕ
  left task locking = 4 + destinations task
  left task binding = 3 + destinations task
  left task (pinging ips) = 2 + length ips
  left task sleeping = 1
  left task finished = 0
  left task panicked = 0

  abbrev pub thread_left : Thread U → ℕ
  thread_left t = left t.task t.phase

  -- A list with a positive sum has an element with a positive share.
  pub record Found (f : Thread U → ℕ) (ts : List (Thread U)) : Type 0 where
    pub before : List (Thread U)
    pub after : List (Thread U)
    pub thread : Thread U
    pub found : ts ≡ before ++ (thread ∷ after)
    pub positive : 0 < f thread

  find_more :
      (f : Thread U → ℕ) (t : Thread U) (ts : List (Thread U)) → Found f ts → Found f (t ∷ ts)
  find_more f t ts it = record {
    before = t ∷ it.before;
    after = it.after;
    thread = it.thread;
    found = ap (◌∷◌ t) it.found;
    positive = it.positive;
  }

  find : (f : Thread U → ℕ) (ts : List (Thread U)) → 0 < sum_of f ts → Found f ts
  unfolding sum_of
  find f [] h = absurd (omega arith)
  find f (t ∷ ts) h = elim (zero_or_positive (f t)) [
    | inl e ↦ find_more f t ts (find f ts (omega arith))
    | inr p ↦ record { before = []; after = ts; thread = t; found = refl; positive = p }
  ]

module _ {U W : Type 0} ⦃u : Default U⦄ where
  -- The actions that are left to all threads.
  abbrev pub work : Threads U W → ℕ
  work s = sum_of thread_left s.threads

module _ {U : Type 0} ⦃u : Default U⦄ (b : ByteOrder) (w : Protobuf U) (h : HmacSha256) {W : Type 0}
    (net : Network U W) where
  advance-left :
      (task : Task U) (p : Phase U) (m : Mutex) (s : Sent W) (v : Moved U W)
      → advance b w h net task p m s ≡ some v
      → left task v.phase < left task p
  unfolding advance lock bind ping_one notify
  advance-left task locking m s v e = ground arith
  advance-left task binding m s v e = ground arith
  advance-left task (pinging []) m s v e = ground arith
  advance-left task (pinging (ip ∷ ips)) m s v e = ground arith
  advance-left task sleeping m s v e = ground arith
  advance-left task finished m s v e = ground arith
  advance-left task panicked m s v e = ground arith

  pub Run-work : {s t : Threads U W} → Run b w h net s t → work t < work s
  Run-work {s} (move before after t v here_is moved) = rw (ap (sum_of thread_left) here_is) (
      omega (
        arith,
        sum_of-middle thread_left before after t,
        sum_of-middle thread_left before after (record { task = t.task; phase = v.phase }),
        advance-left t.task t.phase s.outbound_mutex s.sent v moved,
      ))

  -- However they are interleaved, the threads make no more moves than the work that is left.
  pub Runs-work : {n : ℕ} {s t : Threads U W} → Runs b w h net s n t → n + work t ≤ work s
  Runs-work halt = omega arith
  Runs-work (more r rs) = omega (arith, Run-work r, Runs-work rs)

  -- A thread with the guard moves; so does any that has not ended, when the mutex is free.
  advances :
      (task : Task U) (p : Phase U) (m : Mutex) (s : Sent W)
      → 0 < left task p
      → ((holds p ≡ true) ⊎ (m.held ≡ false))
      → (v : Moved U W) × (advance b w h net task p m s ≡ some v)
  unfolding advance lock
  advances task locking m s pos (inr free) = (
    (if m.poisoned
        then record { phase = panicked; outbound_mutex = m; sent = s }
        else record { phase = binding; outbound_mutex = record m { held = true }; sent = s }),
    rw free refl,
  )
  advances task locking m s pos (inl e) = absurd (ground arith)
  advances task binding m s pos able = (_, refl)
  advances task (pinging []) m s pos able = (_, refl)
  advances task (pinging (ip ∷ ips)) m s pos able = (_, refl)
  advances task sleeping m s pos able = (_, refl)
  advances task finished m s pos able = absurd (omega arith)
  advances task panicked m s pos able = absurd (omega arith)

  moves :
      (f : Thread U → ℕ) (s : Threads U W) (it : Found f s.threads)
      → 0 < thread_left it.thread
      → ((holds it.thread.phase ≡ true) ⊎ (s.outbound_mutex.held ≡ false))
      → (t : Threads U W) × Run b w h net s t
  moves f s it pos able =
      let (v, e) = advances it.thread.task it.thread.phase s.outbound_mutex s.sent pos able in
      (_, move it.before it.after it.thread v it.found e)

  holding-left :
      (task : Task U) (p : Phase U) → 0 < one (holds p) → (holds p ≡ true) × (0 < left task p)
  holding-left task locking pos = ground arith
  holding-left task binding pos = (refl, omega arith)
  holding-left task (pinging ips) pos = (refl, omega arith)
  holding-left task sleeping pos = ground arith
  holding-left task finished pos = ground arith
  holding-left task panicked pos = ground arith

  pub no_deadlock :
      (s : Threads U W) → IsExclusive s → 0 < work s → (t : Threads U W) × Run b w h net s t
  no_deadlock s x pos = elim (Bool-cases s.outbound_mutex.held) [
    | inl taken ↦
        let it = find holding s.threads (ground arith) in
        let (e, p) = holding-left it.thread.task it.thread.phase it.positive in
        moves holding s it p (inl e)
    | inr free ↦
        let it = find thread_left s.threads pos in moves thread_left s it it.positive (inr free)
  ]

  pub Runs-IsExclusive :
      {n : ℕ} {s t : Threads U W} → IsExclusive s → Runs b w h net s n t → IsExclusive t
  Runs-IsExclusive x halt = x
  Runs-IsExclusive x (more r rs) = Runs-IsExclusive (Step-IsExclusive b w h net x (run r)) rs

  -- From every state that the client reaches, the threads make at most so many moves as is the work
  -- that is left, however they are interleaved; and after any of these moves all have ended, or one
  -- can move: none waits for the mutex forever.
  pub Runs-progress :
      (sent : Sent W) (s : Threads U W) (n : ℕ) (t : Threads U W)
      → Steps b w h net (new sent) s
      → Runs b w h net s n t
      → (n + work t ≤ work s) × ((work t ≡ 0) ⊎ ((v : Threads U W) × Run b w h net t v))
  Runs-progress sent s n t r rs =
      let x = Steps-IsExclusive b w h net (new-IsExclusive b w h net sent) r in
      (
        Runs-work rs,
        elim (zero_or_positive (work t)) [
          | inl e ↦ inl e
          | inr pos ↦ inr (no_deadlock t (Runs-IsExclusive x rs) pos)
        ],
      )
