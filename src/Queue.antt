-- ===== src/Queue.antt =====
-- The in-memory job queue with leases (src/platform/queue/queue.py). Generic in the job: the
-- queue reads nothing but its id.
pub mod Order
use vai_core.Prelude.{ℕ, Option, none, some, List, [], ◌∷◌, ◌++◌, String, length}
use vai_core.Prelude.Dict.{Dict, get, put, remove}

-- `InMemoryQueue`: the deque from its left end, and the leased jobs by id.
pub record Queue (J : Type 0) : Type 0 where
  pub items : List J
  pub in_flight : Dict J

module _ {J : Type 0} where
  abbrev pub empty : Queue J
  empty = record { items = []; in_flight = [] }

  unfoldable pub push : Queue J → J → Queue J
  push q job = record q { items = q.items ++ job ∷ [] }

  -- `__len__`
  abbrev pub len : Queue J → ℕ
  len q = length q.items

  -- `acknowledge` and `nack` both drop the lease.
  unfoldable pub acknowledge : Queue J → String → Queue J
  unfolding remove
  acknowledge q job_id = record q { in_flight = remove q.in_flight job_id }

  unfoldable pub nack : Queue J → String → Queue J
  unfolding remove
  nack q job_id = record q { in_flight = remove q.in_flight job_id }

  abbrev put_back : Option J → List J → List J
  put_back none items = items
  put_back (some job) items = job ∷ items

  unfoldable pub requeue : Queue J → String → Queue J
  unfolding get remove
  requeue q job_id = record {
    items = put_back (get q.in_flight job_id) q.items;
    in_flight = remove q.in_flight job_id;
  }

module _ {J : Type 0} (id_of : J → String) where
  abbrev pub pop_items : List J → Dict J → Option J × Queue J
  pop_items [] leased = (none, record { items = []; in_flight = leased })
  pop_items (job ∷ rest) leased =
      (some job, record { items = rest; in_flight = put leased (id_of job) job })

  unfoldable pub pop : Queue J → Option J × Queue J
  unfolding put
  pop q = pop_items q.items q.in_flight
