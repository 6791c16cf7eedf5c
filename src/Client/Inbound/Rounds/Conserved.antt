-- ===== src/Client/Inbound/Rounds/Conserved.antt =====
-- Between the packets and the server no result is lost, doubled or overtaken by one of its task.
use verfploeter.Prelude.{
  ℕ, ◌≡◌, ◌≢◌, ◌∙◌, refl, sym, ap, List, [], ◌∷◌, ◌++◌, append_assoc, append-nil, Option, none,
  some, Default, value, ◌>>=◌, All, u32_max, subst, Option-cases, inl, inr,
}
use verfploeter.Net.Packet.{Ipv4Packet}
use verfploeter.Schema.Wire.{Protobuf}
use verfploeter.Schema.Signed.{HmacSha256}
use verfploeter.Schema.Metadata.{Metadata}
use verfploeter.Schema.Result.{Result}
use verfploeter.Schema.TaskResult.{TaskResult}
use verfploeter.Client.Inbound.{State, ping_payload, ping_result, process_packet, result_task_id}
use verfploeter.Client.Inbound.Rounds.{
  Threads, Event, processes, takes, sends, new, take_queue, send_taken, step, run, result_of,
  followed, valid_results,
}
use verfploeter.Client.Inbound.Rounds.Accepted.{
  followed-append, left_of, right_of, accept, IsSendable,
}
use verfploeter.Client.Inbound.Rounds.Invariant.{
  new-Holds, Holds, processed, processed-Holds, take-Holds, send-Holds, IsConserved,
  Holds-IsConserved,
}

module _ {U : Type 0} ⦃u : Default U⦄ (w : Protobuf U) (h : HmacSha256)
    (metadata : Metadata U) where
  process_packet-processed :
      (packet : ℕ × Ipv4Packet) (s : State U)
      → process_packet w h packet s ≡ processed (result_of w h packet) s
  unfolding process_packet result_of
  process_packet-processed packet s = elim (Option-cases (ping_payload w h packet.1)) [
    | inl e ↦ rw (process_packet, result_of, e) refl
    | inr (payload, e) ↦ rw (process_packet, result_of, e) refl
  ]

  result_of-has_ping :
      (packet : ℕ × Ipv4Packet)
      → All (λ r. result_task_id r ≢ u32_max) (followed (result_of w h packet) [])
      → All IsSendable (followed (result_of w h packet) [])
  unfolding result_of
  result_of-has_ping packet g = elim (Option-cases (ping_payload w h packet.1)) [
    | inl e ↦ rw (result_of, e) tt
    | inr (payload, e) ↦
        let eq : result_of w h packet ≡ some (ping_result w h packet.0 packet.1 payload) =
          rw (result_of, e) refl in
        subst
          (λ (o : Option (Result U)).
            All (λ (r : Result U). result_task_id r ≢ u32_max) (followed o [])
            → All IsSendable (followed o []))
          (sym eq) (λ g. ((unfold ping_result in refl, g.0), tt)) g
  ]

  takes_eq :
      (s : Threads U (List (TaskResult U))) {o : Option (List (Result U))}
      → s.taken ≡ o
      → step w h accept metadata takes s ≡ elim o [ none ↦ take_queue s | some rq ↦ value s ]
  unfolding step
  takes_eq s e =
      ap (λ (o : Option (List (Result U))). elim o [ none ↦ take_queue s | some rq ↦ value s ]) e

  sends_eq :
      (s : Threads U (List (TaskResult U))) {o : Option (List (Result U))}
      → s.taken ≡ o
      → step w h accept metadata sends s
        ≡ elim o [ none ↦ value s | some rq ↦ value (send_taken accept metadata rq s) ]
  unfolding step
  sends_eq s e =
      ap
        (λ (o : Option (List (Result U))). elim o [
          | none ↦ value s
          | some rq ↦ value (send_taken accept metadata rq s)
        ])
        e

  step-Holds :
      (done : List (Result U)) (e : Event) (s : Threads U (List (TaskResult U)))
      → Holds done s
      → All (λ r. result_task_id r ≢ u32_max) (valid_results w h (e ∷ []))
      → (t : Threads U (List (TaskResult U))) × (step w h accept metadata e s ≡ value t)
        × Holds (done ++ valid_results w h (e ∷ [])) t
  unfolding step valid_results
  step-Holds done (processes packet) s x g = (
    record s { state = process_packet w h packet s.state },
    refl,
    rw (process_packet-processed packet s.state)
        (processed-Holds done (result_of w h packet) s x (result_of-has_ping packet g)),
  )
  step-Holds done takes s x g = rw (append-nil done) (elim (Option-cases s.taken) [
    | inl e ↦ let (t, q, y) = take-Holds done s x e in (t, takes_eq s e ∙ q, y)
    | inr (rq, e) ↦ (s, takes_eq s e, x)
  ])
  step-Holds done sends s x g = rw (append-nil done) (elim (Option-cases s.taken) [
    | inl e ↦ (s, sends_eq s e, x)
    | inr (rq, e) ↦ (_, sends_eq s e, send-Holds metadata done rq s x e)
  ])

  valid_results-cons :
      (e : Event) (es : List Event)
      → valid_results w h (e ∷ es) ≡ valid_results w h (e ∷ []) ++ valid_results w h es
  unfolding valid_results
  valid_results-cons (processes packet) es =
      followed-append (result_of w h packet) (valid_results w h es)
  valid_results-cons takes es = refl
  valid_results-cons sends es = refl

  run-Holds :
      (done : List (Result U)) (es : List Event) (s : Threads U (List (TaskResult U)))
      → Holds done s
      → All (λ r. result_task_id r ≢ u32_max) (valid_results w h es)
      → (t : Threads U (List (TaskResult U))) × (run w h accept metadata es s ≡ value t)
        × Holds (done ++ valid_results w h es) t
  unfolding run
  run-Holds done [] s x g = unfold valid_results in rw (append-nil done) (s, refl, x)
  run-Holds done (e ∷ es) s x g =
      let split = valid_results-cons e es in
      let both = subst (All (λ r. result_task_id r ≢ u32_max)) split g in
      let (t, q, y) = step-Holds done e s x (
        left_of (λ r. result_task_id r ≢ u32_max) (valid_results w h (e ∷ []))
          (valid_results w h es) both) in
      let (v, q', z) = run-Holds (done ++ valid_results w h (e ∷ [])) es t y (
        right_of (λ r. result_task_id r ≢ u32_max) (valid_results w h (e ∷ []))
          (valid_results w h es) both) in
      (
        v,
        ap (λ r. r >>= run w h accept metadata es) q ∙ q',
        subst (λ rs. Holds rs v)
            (append_assoc done (valid_results w h (e ∷ [])) (valid_results w h es)
              ∙ ap (◌++◌ done) (sym split))
            z,
      )

  -- If no valid packet is for task 2^32 - 1 and the server accepts what it is sent, then after any
  -- events, with packets processed before, during and after the transmitter's rounds, nothing has
  -- panicked; for each task the results that the server has, then those that the transmitter has
  -- taken, then those in the queue are those of the valid packets, in the order of processing; and
  -- the counter of transmitted packets falls short of the valid ones by those not sent yet.
  pub run-Conserved :
      (es : List Event)
      → All (λ r. result_task_id r ≢ u32_max) (valid_results w h es)
      → (s : Threads U (List (TaskResult U))) × (run w h accept metadata es (new []) ≡ value s)
        × IsConserved (valid_results w h es) s
  run-Conserved es g =
      let (s, q, x) = run-Holds [] es (new []) new-Holds g in (s, q, Holds-IsConserved x)
