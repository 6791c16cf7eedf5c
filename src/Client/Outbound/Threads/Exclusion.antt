-- ===== src/Client/Outbound/Threads/Exclusion.antt =====
-- One ping at a time.
use verfploeter.Prelude.{
  ℕ, ◌+◌, ◌≡◌, refl, Bool, true, false, List, [], ◌∷◌, ◌++◌, some, Default, arith, ◌≤◌, subst,
}
use verfploeter.Net.Cursor.{ByteOrder}
use verfploeter.Schema.Wire.{Protobuf}
use verfploeter.Schema.Signed.{HmacSha256}
use verfploeter.Schema.Task.{Task}
use verfploeter.Client.Outbound.{Network, Sent}
use verfploeter.Client.Outbound.Threads.{
  Mutex, Phase, locking, binding, pinging, sleeping, finished, panicked, Thread, Threads, Moved,
  lock, bind, ping_one, notify, advance, move, Step, start, run, Steps, here, later, new,
}
use verfploeter.Client.Outbound.Threads.Totals.{sum_of, sum_of-middle}

abbrev pub one : Bool → ℕ
one true = 1
one false = 0

module _ {U : Type 0} where
  -- Between `lock` and the drop of the guard.
  abbrev pub holds : Phase U → Bool
  holds locking = false
  holds binding = true
  holds (pinging ips) = true
  holds sleeping = false
  holds finished = false
  holds panicked = false

  abbrev pub holding : Thread U → ℕ
  holding t = one (holds t.phase)

module _ {U W : Type 0} where
  -- The mutex is held by as many threads as it says, so by one at most.
  abbrev pub IsExclusive : Threads U W → Type 0
  IsExclusive s = sum_of holding s.threads ≡ one s.outbound_mutex.held

module _ {U : Type 0} ⦃u : Default U⦄ (b : ByteOrder) (w : Protobuf U) (h : HmacSha256) {W : Type 0}
    (net : Network U W) where
  -- What a step adds to the mutex it adds to the thread.
  advance-held :
      (task : Task U) (p : Phase U) (m : Mutex) (s : Sent W) (v : Moved U W) (others : ℕ)
      → advance b w h net task p m s ≡ some v
      → others + one (holds p) ≡ one m.held
      → others + one (holds v.phase) ≡ one v.outbound_mutex.held
  unfolding advance lock bind ping_one notify
  advance-held task locking m s v others e x = ground arith
  advance-held task binding m s v others e x = ground arith
  advance-held task (pinging []) m s v others e x = ground arith
  advance-held task (pinging (ip ∷ ips)) m s v others e x = ground arith
  advance-held task sleeping m s v others e x = ground arith
  advance-held task finished m s v others e x = ground arith
  advance-held task panicked m s v others e x = ground arith

  pub Step-IsExclusive : {s t : Threads U W} → IsExclusive s → Step b w h net s t → IsExclusive t
  unfolding sum_of
  Step-IsExclusive {s} x (start task) =
      omega (arith, sum_of-middle holding s.threads [] (record { task = task; phase = locking }), x)
  Step-IsExclusive {s} x (run (move before after t v here_is moved)) =
      let now = subst (λ ts. sum_of holding ts ≡ one s.outbound_mutex.held) here_is x in
      let t' : Thread U = record { task = t.task; phase = v.phase } in
      let others = sum_of holding before + sum_of holding after in
      omega (
        arith,
        sum_of-middle holding before after t,
        sum_of-middle holding before after t',
        now,
        advance-held t.task t.phase s.outbound_mutex s.sent v others moved
            (omega (arith, sum_of-middle holding before after t, now)),
      )

  pub Steps-IsExclusive : {s t : Threads U W} → IsExclusive s → Steps b w h net s t → IsExclusive t
  Steps-IsExclusive x here = x
  Steps-IsExclusive x (later r r') = Step-IsExclusive (Steps-IsExclusive x r) r'

  pub new-IsExclusive : (s : Sent W) → IsExclusive {U = U} (new s)
  unfolding sum_of
  new-IsExclusive s = refl

  apart :
      (before between after : List (Thread U)) (t t' : Thread U)
      → sum_of holding (before ++ (t ∷ (between ++ (t' ∷ after)))) ≤ 1
      → holds t.phase ≡ true
      → holds t'.phase ≡ false
  apart before between after t t' x e = ground (
    arith,
    sum_of-middle holding before (between ++ (t' ∷ after)) t,
    sum_of-middle holding between after t',
  )

  -- However the threads' steps are interleaved with each other and with the start of new threads,
  -- no two threads are between taking the mutex and dropping it: one ping goes out at a time.
  pub mutual_exclusion :
      (sent : Sent W) (s : Threads U W)
      → Steps b w h net (new sent) s
      → (before between after : List (Thread U)) (t t' : Thread U)
      → s.threads ≡ before ++ (t ∷ (between ++ (t' ∷ after)))
      → holds t.phase ≡ true
      → holds t'.phase ≡ false
  mutual_exclusion sent s r before between after t t' e =
      let x =
        subst (λ ts. sum_of holding ts ≡ one s.outbound_mutex.held) e
          (Steps-IsExclusive (new-IsExclusive sent) r) in
      apart before between after t t' (ground (arith, x))
