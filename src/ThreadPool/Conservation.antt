-- ===== src/ThreadPool/Conservation.antt =====
-- Where the tasks are that a ThreadPool (src/com/thread_pool.cpp) has accepted.
use yan.Prelude.{ℕ, zero, suc, ◌+◌, ◌≡◌, refl, ap, inl, inr, Bool, List, ◌==◌, if◌then◌else◌, arith}
use yan.Prelude.Text.{count, count-append}
use yan.Prelude.Total.{total, total-set}
use yan.ThreadPool.{Queue, IsQueue}
use yan.ThreadPool.Run.{
  Worker, running, Consumer, Work, check_out, check_on, take, miss, time_out, complete, System,
  Step, call, enqueue, refuse, stop_all, work, Steps, here, further, new_consumers, new_system,
}

-- How often a worker is in a task.
unfoldable pub runs : ℕ → Worker → ℕ
runs k (running t) = if t == k then 1 else 0
runs k w = 0

module _ (queue : Queue) where
  open queue use {items}

  -- How often a consumer has a task, in its queue or at work.
  unfoldable pub in_hand : ℕ → Consumer queue → ℕ
  unfolding runs
  in_hand k c = count k (items c.queue_) + runs k c.worker

  -- Every task that was accepted is with a consumer or has been executed, as often as it was
  -- accepted.
  abbrev pub Conserved : System queue → Type 0
  Conserved x = (k : ℕ) → count k x.accepted ≡ total (in_hand k) x.consumers + count k x.executed

module _ (queue : Queue) (laws : IsQueue queue) where
  open queue use {items}

  Work-in_hand :
      (k : ℕ) {stop : Bool} {c d : Consumer queue} {done : List ℕ}
      → Work queue stop c d done
      → in_hand queue k d + count k done ≡ in_hand queue k c
  unfolding in_hand count
  Work-in_hand k (check_out w s z) = ground (arith, w)
  Work-in_hand k (check_on w s) = ground (arith, w)
  Work-in_hand k (take {c} {t} {q} (inl w) e) =
      ground (arith, w, laws.count-dequeue t c.queue_ q e k)
  Work-in_hand k (take {c} {t} {q} (inr w) e) =
      ground (arith, w, laws.count-dequeue t c.queue_ q e k)
  Work-in_hand k (miss w e) = ground (arith, w)
  Work-in_hand k (time_out w e) = ground (arith, w)
  Work-in_hand k (complete w) = ground (arith, w)

  Step-Conserved : {x y : System queue} → Step queue x y → Conserved queue x → Conserved queue y
  unfolding in_hand count
  Step-Conserved (call i t s) h k = h k
  Step-Conserved {x} (enqueue i t c q before behind p at e) h k = omega (
    arith,
    h k,
    total-set (in_hand queue k) x.consumers i (record c { queue_ = q }) c at,
    laws.count-enqueue t c.queue_ q e k,
  )
  Step-Conserved (refuse i t c before behind p at e) h k = h k
  Step-Conserved stop_all h k = h k
  Step-Conserved {x} (work i c d done at w) h k = omega (
    arith,
    h k,
    total-set (in_hand queue k) x.consumers i d c at,
    Work-in_hand k w,
    count-append k done x.executed,
  )

  total-new_consumers : (n k : ℕ) → total (in_hand queue k) (new_consumers queue n) ≡ 0
  unfolding new_consumers in_hand count total
  total-new_consumers zero k = refl
  total-new_consumers (suc n) k =
      omega (arith, ap (count k) laws.items-new, total-new_consumers n k)

  new-Conserved : (n : ℕ) → Conserved queue (new_system queue n)
  unfolding new_system count
  new-Conserved n k = omega (arith, total-new_consumers n k)

  -- However callers and workers take turns, and whether the pool is stopped or not: of every task
  -- that a queue has accepted, as many are in the queues, at work or completed as were accepted. So
  -- none is lost and none runs twice.
  pub Steps-Conserved :
      (n : ℕ) (x : System queue)
      → Steps queue (new_system queue n) x
      → (k : ℕ) → count k x.accepted ≡ total (in_hand queue k) x.consumers + count k x.executed
  Steps-Conserved n _ here = new-Conserved n
  Steps-Conserved n x (further steps s) = Step-Conserved s (Steps-Conserved n _ steps)
