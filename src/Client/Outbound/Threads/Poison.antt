-- ===== src/Client/Outbound/Threads/Poison.antt =====
-- A panic while the guard is held ends all later pings.
use verfploeter.Prelude.{
  ℕ, ◌≡◌, ◌≤◌, ◌∙◌, refl, ap, Bool, true, false, [], some, Default, arith, subst,
}
use verfploeter.Net.Cursor.{ByteOrder}
use verfploeter.Schema.Wire.{Protobuf}
use verfploeter.Schema.Signed.{HmacSha256}
use verfploeter.Schema.Task.{Task}
use verfploeter.Client.Outbound.{Network, Sent}
use verfploeter.Client.Outbound.Counting.{total}
use verfploeter.Client.Outbound.Threads.{
  Mutex, Phase, locking, binding, pinging, sleeping, finished, panicked, Thread, Threads, Moved,
  lock, notify, advance, move, Step, start, run, Steps, here, later, new, unwound,
}
use verfploeter.Client.Outbound.Threads.Totals.{sum_of, sum_of-middle}
use verfploeter.Client.Outbound.Threads.Exclusion.{
  holds, holding, one, Steps-IsExclusive, new-IsExclusive,
}

module _ {U : Type 0} where
  -- Its pings went out: it has notified the server, or will.
  abbrev pub pinged : Phase U → Bool
  pinged locking = false
  pinged binding = false
  pinged (pinging ips) = false
  pinged sleeping = true
  pinged finished = true
  pinged panicked = false

  abbrev pub thread_pinged : Thread U → ℕ
  thread_pinged t = one (pinged t.phase)

module _ {U W : Type 0} where
  -- What cannot be undone, with the packets and the finished pings that there are.
  record IsStuck (packets done : ℕ) (s : Threads U W) : Type 0 where
    poisoned : s.outbound_mutex ≡ unwound
    exclusive : sum_of holding s.threads ≡ 0
    as_many : total s.sent ≡ packets
    no_more : sum_of thread_pinged s.threads ≤ done

module _ {U : Type 0} ⦃u : Default U⦄ (b : ByteOrder) (w : Protobuf U) (h : HmacSha256) {W : Type 0}
    (net : Network U W) where
  advance-stuck :
      (task : Task U) (p : Phase U) (m : Mutex) (s : Sent W) (v : Moved U W)
      → advance b w h net task p m s ≡ some v
      → m ≡ unwound
      → one (holds p) ≡ 0
      → (v.outbound_mutex ≡ unwound)
        × (one (holds v.phase) ≡ 0)
        × (total v.sent ≡ total s)
        × (one (pinged v.phase) ≤ one (pinged p))
  unfolding advance lock notify
  advance-stuck task locking m s v e x q = ground arith
  advance-stuck task binding m s v e x q = ground arith
  advance-stuck task (pinging ips) m s v e x q = ground arith
  advance-stuck task sleeping m s v e x q = ground arith
  advance-stuck task finished m s v e x q = ground arith
  advance-stuck task panicked m s v e x q = ground arith

  Step-IsStuck :
      {packets done : ℕ} {s t : Threads U W}
      → IsStuck packets done s
      → Step b w h net s t
      → IsStuck packets done t
  unfolding sum_of
  Step-IsStuck {s} x (start task) =
      let t : Thread U = record { task = task; phase = locking } in
      record {
        poisoned = x.poisoned;
        exclusive = omega (arith, x.exclusive, sum_of-middle holding s.threads [] t);
        as_many = x.as_many;
        no_more = omega (arith, x.no_more, sum_of-middle thread_pinged s.threads [] t);
      }
  Step-IsStuck {packets} {done} {s} x (run (move before after t v here_is moved)) =
      let t' : Thread U = record { task = t.task; phase = v.phase } in
      let quiet = subst (λ ts. sum_of holding ts ≡ 0) here_is x.exclusive in
      let few = subst (λ ts. sum_of thread_pinged ts ≤ done) here_is x.no_more in
      let a =
        advance-stuck t.task t.phase s.outbound_mutex s.sent v moved x.poisoned
          (omega (arith, quiet, sum_of-middle holding before after t)) in
      record {
        poisoned = a.0;
        exclusive = omega (
          arith,
          quiet,
          a.1,
          sum_of-middle holding before after t,
          sum_of-middle holding before after t',
        );
        as_many = a.2 ∙ x.as_many;
        no_more = omega (
          arith,
          few,
          a.3,
          sum_of-middle thread_pinged before after t,
          sum_of-middle thread_pinged before after t',
        );
      }

  Steps-IsStuck :
      {packets done : ℕ} {s t : Threads U W}
      → IsStuck packets done s
      → Steps b w h net s t
      → IsStuck packets done t
  Steps-IsStuck x here = x
  Steps-IsStuck x (later r r') = Step-IsStuck (Steps-IsStuck x r) r'

  -- In a state that the client reaches, a panic of a pinging thread has left the mutex poisoned and
  -- free. Whatever happens then, with tasks that come later too: no packet is sent any more, and no
  -- further task gets as far as its notification.
  pub poisoned-stuck :
      (sent : Sent W) (s t : Threads U W)
      → Steps b w h net (new sent) s
      → s.outbound_mutex ≡ unwound
      → Steps b w h net s t
      → (total t.sent ≡ total s.sent)
        × (sum_of thread_pinged t.threads ≤ sum_of thread_pinged s.threads)
  poisoned-stuck sent s t r e rs =
      let x = Steps-IsExclusive b w h net (new-IsExclusive b w h net sent) r in
      let stuck : IsStuck (total s.sent) (sum_of thread_pinged s.threads) t =
        Steps-IsStuck
          (record {
            poisoned = e;
            exclusive = x ∙ ap (λ m. one m.held) e;
            as_many = refl;
            no_more = omega arith;
          })
          rs in
      (stuck.as_many, stuck.no_more)
