-- ===== src/Queue/Order.antt =====
-- The order in which jobs leave the queue, and what a lease keeps.
use vai_core.Prelude.{
  Option, none, some, List, [], ◌∷◌, ◌++◌, String, ◌≡◌, refl, ap, sym, ◌∙◌, eq_iff, eq_refl, arith,
}
use vai_core.Prelude.Dict.{Dict, get, put, remove, get-put_self}
use mathlib.Core.List.{append-nil, append_assoc}
use vai_core.Queue.{Queue, push, pop_items, pop, acknowledge, nack, requeue}

-- The operations that a producer and the workers make, but for `requeue`.
pub data Op (J : Type 0) : Type 0 where
  do_push : J → Op J
  do_pop : Op J
  do_acknowledge do_nack : String → Op J

module _ {J : Type 0} where
  abbrev pub pushes : List (Op J) → List J
  pushes [] = []
  pushes (do_push job ∷ ops) = job ∷ pushes ops
  pushes (do_pop ∷ ops) = pushes ops
  pushes (do_acknowledge id ∷ ops) = pushes ops
  pushes (do_nack id ∷ ops) = pushes ops

  abbrev got : Option J → List J → List J
  got none rest = rest
  got (some job) rest = job ∷ rest

module _ {J : Type 0} (id_of : J → String) where
  -- The jobs that the pops hand out, in order, and the queue afterwards.
  abbrev pub run_ops : Queue J → List (Op J) → List J × Queue J
  run_ops q [] = ([], q)
  run_ops q (do_push job ∷ ops) = run_ops (push q job) ops
  run_ops q (do_pop ∷ ops) =
      let (job, q') = pop id_of q in let (out, q'') = run_ops q' ops in (got job out, q'')
  run_ops q (do_acknowledge id ∷ ops) = run_ops (acknowledge q id) ops
  run_ops q (do_nack id ∷ ops) = run_ops (nack q id) ops

  pop-got :
      (q : Queue J) (out : List J)
      → got (pop id_of q).0 ((pop id_of q).1.items ++ out) ≡ q.items ++ out
  unfolding pop
  pop-got q out = by_items q.items
    where
      by_items :
          (items : List J)
          → got
              (pop_items id_of items q.in_flight).0
              ((pop_items id_of items q.in_flight).1.items ++ out)
            ≡ items ++ out
      by_items [] = refl
      by_items (job ∷ rest) = refl

  got-append : (o : Option J) (xs ys : List J) → got o xs ++ ys ≡ got o (xs ++ ys)
  got-append none xs ys = refl
  got-append (some job) xs ys = refl

  -- First in, first out: whatever pushes, pops, acknowledgements and nacks are made, in whatever
  -- order, the jobs handed out and then those still queued are the jobs queued at first and then
  -- those pushed, each once and in order.
  pub run_ops-fifo :
      (q : Queue J) (ops : List (Op J))
      → let (out, q') = run_ops q ops in out ++ q'.items ≡ q.items ++ pushes ops
  unfolding push acknowledge nack
  run_ops-fifo q [] = sym (append-nil q.items)
  run_ops-fifo q (do_push job ∷ ops) =
      run_ops-fifo (push q job) ops ∙ append_assoc q.items (job ∷ []) (pushes ops)
  run_ops-fifo q (do_pop ∷ ops) =
      let (job, q') = pop id_of q in
      let (out, q'') = run_ops q' ops in
      got-append job out q''.items ∙ (ap (got job) (run_ops-fifo q' ops) ∙ pop-got q (pushes ops))
  run_ops-fifo q (do_acknowledge id ∷ ops) = run_ops-fifo (acknowledge q id) ops
  run_ops-fifo q (do_nack id ∷ ops) = run_ops-fifo (nack q id) ops

  remove-put : (d : Dict J) (k : String) (job : J) → get d k ≡ none → remove (put d k job) k ≡ d
  unfolding remove put get
  remove-put [] k job h = simp (eq_refl)
  remove-put ((j, v) ∷ d) k job h = ground (arith, eq_iff j k, remove-put d k job)

  requeue-pop_items :
      (items : List J) (leased : Dict J) (job : J) (rest : List J)
      → items ≡ job ∷ rest
      → get leased (id_of job) ≡ none
      → requeue (pop_items id_of items leased).1 (id_of job)
        ≡ record { items = items; in_flight = leased }
  unfolding requeue
  requeue-pop_items items leased job rest e free =
      rw e (rw (get-put_self leased (id_of job) job, remove-put leased (id_of job) job free))

  -- A job that is popped and then requeued under its id is back at the front, and the queue is as
  -- it was, if no other job was leased under that id.
  pub requeue-pop :
      (q : Queue J) (job : J) (rest : List J)
      → q.items ≡ job ∷ rest
      → get q.in_flight (id_of job) ≡ none
      → requeue (pop id_of q).1 (id_of job) ≡ q
  unfolding pop
  requeue-pop q job rest e free = requeue-pop_items q.items q.in_flight job rest e free
