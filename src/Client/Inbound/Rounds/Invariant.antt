-- ===== src/Client/Inbound/Rounds/Invariant.antt =====
-- What holds between any two events, and that each keeps it.
use verfploeter.Prelude.{
  ℕ, ◌+◌, ◌≡◌, ◌∙◌, refl, sym, ap, List, [], ◌∷◌, ◌++◌, append_assoc, append-nil, Option, none,
  some, Default, value, arith, length, length-append, All, subst,
}
use verfploeter.Schema.Metadata.{Metadata}
use verfploeter.Schema.Result.{Result}
use verfploeter.Schema.TaskResult.{TaskResult}
use verfploeter.Client.Inbound.{State, sort_by_task_id}
use verfploeter.Client.Inbound.Sorting.{of_task, sort-of_task, sort-All}
use verfploeter.Client.Inbound.Batches.{batches, transmit_results-batches}
use verfploeter.Client.Inbound.Batches.Partition.{results_of, results_of-batches}
use verfploeter.Client.Inbound.Rounds.{Threads, new, take_queue, send_taken, followed}
use verfploeter.Client.Inbound.Rounds.Accepted.{
  All-append, accept, of_task-append, results_of-append, length-sort, send_all-accept, targets,
  drain-id, IsSendable,
}

module _ {U : Type 0} ⦃u : Default U⦄ where
  abbrev pub held : Option (List (Result U)) → List (Result U)
  held none = []
  held (some rs) = rs

  -- What holds after the valid packets `done`.
  pub record Holds (done : List (Result U)) (s : Threads U (List (TaskResult U))) : Type 0 where
    queue : List (Result U)
    opened : s.state.result_queue ≡ some queue
    queue_good : All IsSendable queue
    taken_good : All IsSendable (held s.taken)
    kept :
        (t : ℕ)
        → of_task t done
          ≡ of_task t (results_of s.world) ++ (of_task t (held s.taken) ++ of_task t queue)
    counted :
        s.state.packets_processed_valid
        ≡ s.state.packets_transmitted + length (held s.taken) + length queue
    counted_done : s.state.packets_processed_valid ≡ length done

  pub new-Holds : Holds [] (new [])
  unfolding of_task results_of
  new-Holds = record {
    queue = [];
    opened = refl;
    queue_good = tt;
    taken_good = tt;
    kept = λ t. refl;
    counted = omega arith;
    counted_done = refl;
  }

  pub record IsConserved (done : List (Result U)) (s : Threads U (List (TaskResult U)))
      : Type 0 where
    pub per_task :
        (t : ℕ)
        → of_task t done
          ≡ of_task t (results_of s.world)
            ++ (of_task t (held s.taken) ++ of_task t (held s.state.result_queue))
    pub valid : s.state.packets_processed_valid ≡ length done
    pub transmitted :
        s.state.packets_processed_valid
        ≡ s.state.packets_transmitted + length (held s.taken) + length (held s.state.result_queue)

  pub Holds-IsConserved :
      {done : List (Result U)} {s : Threads U (List (TaskResult U))}
      → Holds done s
      → IsConserved done s
  Holds-IsConserved {done} {s} x =
      let queued : held s.state.result_queue ≡ x.queue = ap held x.opened in
      record {
        per_task = λ t. rw queued (x.kept t);
        valid = x.counted_done;
        transmitted = rw queued x.counted;
      }

  -- What a packet does, given its result.
  abbrev pub processed : Option (Result U) → State U → State U
  processed none s = record s { packets_processed_invalid = s.packets_processed_invalid + 1 }
  processed (some r) s = record s {
    packets_processed_valid = s.packets_processed_valid + 1;
    result_queue = elim s.result_queue [ none ↦ none | some queue ↦ some (queue ++ (r ∷ [])) ];
  }

  kept-push :
      (t : ℕ) (done sent taken queue : List (Result U)) (r : Result U)
      → of_task t done ≡ of_task t sent ++ (of_task t taken ++ of_task t queue)
      → of_task t (done ++ (r ∷ []))
        ≡ of_task t sent ++ (of_task t taken ++ of_task t (queue ++ (r ∷ [])))
  kept-push t done sent taken queue r e =
      rw (of_task-append t done (r ∷ []), of_task-append t queue (r ∷ []), e)
        (append_assoc (of_task t sent) (of_task t taken ++ of_task t queue) (of_task t (r ∷ []))
          ∙ ap (◌++◌ (of_task t sent))
              (append_assoc (of_task t taken) (of_task t queue) (of_task t (r ∷ []))))

  pub processed-Holds :
      (done : List (Result U)) (o : Option (Result U)) (s : Threads U (List (TaskResult U)))
      → Holds done s
      → All IsSendable (followed o [])
      → Holds (done ++ followed o []) (record s { state = processed o s.state })
  processed-Holds done none s x good = rw (append-nil done) (record {
    queue = x.queue;
    opened = x.opened;
    queue_good = x.queue_good;
    taken_good = x.taken_good;
    kept = x.kept;
    counted = x.counted;
    counted_done = x.counted_done;
  })
  processed-Holds done (some r) s x good = record {
    queue = x.queue ++ (r ∷ []);
    opened = rw x.opened refl;
    queue_good = All-append IsSendable x.queue (r ∷ []) x.queue_good good;
    taken_good = x.taken_good;
    kept = λ t. kept-push t done (results_of s.world) (held s.taken) x.queue r (x.kept t);
    counted = omega (arith, x.counted, length-append x.queue (r ∷ []));
    counted_done = omega (arith, x.counted_done, length-append done (r ∷ []));
  }

  pub take-Holds :
      (done : List (Result U)) (s : Threads U (List (TaskResult U)))
      → Holds done s
      → s.taken ≡ none
      → (t : Threads U (List (TaskResult U))) × (take_queue s ≡ value t) × Holds done t
  unfolding take_queue of_task
  take-Holds done s x idle = (
    record s { state = record s.state { result_queue = some [] }; taken = some x.queue },
    rw x.opened refl,
    record {
      queue = [];
      opened = refl;
      queue_good = tt;
      taken_good = x.queue_good;
      kept = λ t. x.kept t ∙ (rw (idle, append-nil) refl);
      counted = ground (arith, x.counted, idle);
      counted_done = x.counted_done;
    },
  )

  -- After the sends: the world and the counter.
  abbrev sent_off :
      List (TaskResult U) × ℕ → Threads U (List (TaskResult U)) → Threads U (List (TaskResult U))
  sent_off (world, transmitted) s = record {
    state = record s.state { packets_transmitted = transmitted };
    taken = none;
    world = world;
  }

  send_taken-sent_off :
      (metadata : Metadata U) (rq : List (Result U)) (s : Threads U (List (TaskResult U)))
      → All IsSendable rq
      → send_taken accept metadata rq s
        ≡ sent_off
            (
              s.world ++ batches metadata (sort_by_task_id rq),
              s.state.packets_transmitted + length rq,
            )
            s
  unfolding send_taken
  send_taken-sent_off metadata rq s g = rw (drain-id rq g) (
      ap (λ out. sent_off out s)
        (transmit_results-batches accept metadata (s.world, s.state.packets_transmitted)
            (sort_by_task_id rq) (sort-All _ rq (targets rq g))
          ∙ send_all-accept (batches metadata (sort_by_task_id rq)) s.world
              s.state.packets_transmitted
          ∙ ap
              (λ n.
                (s.world ++ batches metadata (sort_by_task_id rq), s.state.packets_transmitted + n))
              (ap length (results_of-batches metadata (sort_by_task_id rq)) ∙ length-sort rq)))

  of_task-sent :
      (metadata : Metadata U) (t : ℕ) (rq : List (Result U)) (got : List (TaskResult U))
      → of_task t (results_of (got ++ batches metadata (sort_by_task_id rq)))
        ≡ of_task t (results_of got) ++ of_task t rq
  of_task-sent metadata t rq got =
      ap (of_task t) (results_of-append got (batches metadata (sort_by_task_id rq)))
      ∙ of_task-append t (results_of got) (results_of (batches metadata (sort_by_task_id rq)))
      ∙ ap (λ rs. of_task t (results_of got) ++ rs)
          (ap (of_task t) (results_of-batches metadata (sort_by_task_id rq)) ∙ sort-of_task t rq)

  pub send-Holds :
      (metadata : Metadata U) (done rq : List (Result U)) (s : Threads U (List (TaskResult U)))
      → Holds done s
      → s.taken ≡ some rq
      → Holds done (send_taken accept metadata rq s)
  unfolding of_task
  send-Holds metadata done rq s x busy =
      rw
        (send_taken-sent_off metadata rq s (subst (λ o. All IsSendable (held o)) busy x.taken_good))
        (record {
          queue = x.queue;
          opened = x.opened;
          queue_good = x.queue_good;
          taken_good = tt;
          kept = λ t.
              x.kept t
              ∙ rw (busy, of_task-sent metadata t rq s.world)
                  (sym (
                    append_assoc (of_task t (results_of s.world)) (of_task t rq)
                      (of_task t x.queue)));
          counted = ground (arith, x.counted, busy);
          counted_done = x.counted_done;
        })
