-- ===== src/ThreadPool/Stranded.antt =====
-- What becomes of a task that gets into the queue of a ThreadPool's worker (src/com/thread_pool.cpp)
-- when the worker has returned.
use yan.Prelude.{
  ℕ, ◌≤◌, ◌≡◌, ap, ◌∙◌, inl, inr, Bool, true, false, some, List, get_elem?, get_elem?-set, arith,
}
use yan.Prelude.Text.{count}
use yan.ThreadPool.{Queue, IsQueue}
use yan.ThreadPool.Run.{
  Consumer, Work, check_out, check_on, take, miss, time_out, complete, System, Step, call, enqueue,
  refuse, stop_all, work, Steps, here, further,
}
use yan.ThreadPool.Shutdown.{has_returned}

module _ (queue : Queue) (laws : IsQueue queue) where
  open queue use {Q, try_enqueue, size_approx, items}

  -- Nothing leaves the queue of a worker that has returned.
  Work-returned :
      {stop : Bool} {c d : Consumer queue} {done : List ℕ}
      → Work queue stop c d done
      → has_returned c.worker ≡ false
  unfolding has_returned
  Work-returned (check_out w s z) = rw w
  Work-returned (check_on w s) = rw w
  Work-returned (take (inl w) e) = rw w
  Work-returned (take (inr w) e) = rw w
  Work-returned (miss w e) = rw w
  Work-returned (time_out w e) = rw w
  Work-returned (complete w) = rw w

  Left : ℕ → Consumer queue → System queue → Type 0
  Left i c x =
      (d : Consumer queue) × (get_elem? x.consumers i ≡ some d)
      × (has_returned d.worker ≡ true)
      × ((k : ℕ) → count k (items c.queue_) ≤ count k (items d.queue_))

  Step-Left :
      {x y : System queue} (i : ℕ) (c : Consumer queue) → Step queue x y → Left i c x → Left i c y
  unfolding Left
  Step-Left i c (call j t s) h = h
  Step-Left {x} i c (enqueue j t b q before behind p bt e) (d, at, r, more) =
      elim (get_elem?-set x.consumers j i (record b { queue_ = q }) d at) [
        | inl (same, there) ↦
            let eq : b ≡ d = cc in
            (
              record b { queue_ = q },
              there,
              ap (λ (z : Consumer queue). has_returned z.worker) eq ∙ r,
              λ k. omega (
                arith,
                more k,
                ap (λ (z : Consumer queue). count k (items z.queue_)) eq,
                laws.count-enqueue t b.queue_ q e k,
              ),
            )
        | inr there ↦ (d, there, r, more)
      ]
  Step-Left i c (refuse j t b before behind p bt e) h = h
  Step-Left i c stop_all h = h
  Step-Left {x} i c (work j b b' done bt w) (d, at, r, more) =
      elim (get_elem?-set x.consumers j i b' d at) [
        | inl (same, there) ↦
            let eq : b ≡ d = cc in
            absurd (cc (ap (λ (z : Consumer queue). has_returned z.worker) eq, Work-returned w))
        | inr there ↦ (d, there, r, more)
      ]

  -- Once a worker has returned it stays so, and whatever its queue holds from then on, also what a
  -- call puts there that had passed its STOP_CHECK before, is in that queue forever: it is not
  -- executed.
  pub Steps-stranded :
      (x y : System queue) (i : ℕ) (c : Consumer queue)
      → get_elem? x.consumers i ≡ some c
      → has_returned c.worker ≡ true
      → Steps queue x y
      → (d : Consumer queue) × (get_elem? y.consumers i ≡ some d)
        × (has_returned d.worker ≡ true)
        × ((k : ℕ) → count k (items c.queue_) ≤ count k (items d.queue_))
  unfolding Left
  Steps-stranded x _ i c at r here = (c, at, r, λ k. omega arith)
  Steps-stranded x y i c at r (further steps s) =
      Step-Left i c s (Steps-stranded x _ i c at r steps)
