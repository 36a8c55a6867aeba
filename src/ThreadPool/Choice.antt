-- ===== src/ThreadPool/Choice.antt =====
-- Which queue ThreadPool (src/com/thread_pool.h) puts a task into.
use yan.Prelude.{
  ℕ, ◌+◌, ◌%◌, ◌^◌, ◌≤◌, ◌<◌, ◌≡◌, ◌⊎◌, inl, inr, refl, ap, ◌∙◌, Bool, true, false, Option, none,
  some, ltb, length, get_elem?, get_elem?-some, get_elem?-none, set, sym, subst, Result, ok, err,
  runtime_error, undefined, arith, Outcome,
}
use yan.Prelude.Text.{bytes}
use yan.ThreadPool.{
  Queue, ThreadPool, next_seq, int_index, stop_check, enqueue_at, enqueue_next, insert, insert_num,
  num_index,
}

int_index_small : (v n : ℕ) → 0 < n → v < 2 ^ 31 → int_index v n ≡ ok (v % n)
unfolding int_index
int_index_small v n pos small = ground arith

pub next_seq_small : (s : ℕ) → s + 1 < 2 ^ 32 → next_seq s ≡ s + 1
unfolding next_seq
next_seq_small s h = omega arith

module _ (queue : Queue) where
  open queue use {Q, try_enqueue}

  enqueue_at-consumers :
      (i t : ℕ) (p : ThreadPool queue)
      → get_elem? p.consumers i ≡ none
      → enqueue_at queue (ok i) t p ≡ (err undefined, p)
  unfolding enqueue_at
  enqueue_at-consumers i t p e = rw (e, enqueue_at)

  pub insert-running :
      (t : ℕ) (p : ThreadPool queue) → p.stop ≡ false → insert queue t p ≡ enqueue_next queue t p
  unfolding insert stop_check
  insert-running t p h = rw h

  insert-place :
      (t : ℕ) (p : ThreadPool queue)
      → p.stop ≡ false
      → 0 < length p.consumers
      → p.seq + 1 < 2 ^ 31
      → insert queue t p
        ≡ enqueue_at queue (ok ((p.seq + 1) % length p.consumers)) t (record p { seq = p.seq + 1 })
  unfolding enqueue_next
  insert-place t p running some_queue small =
      insert-running t p running
      ∙ ap (λ v. enqueue_at queue (int_index v (length p.consumers)) t (record p { seq = v }))
          (next_seq_small p.seq (omega arith))
      ∙ ap (λ r. enqueue_at queue r t (record p { seq = p.seq + 1 }))
          (int_index_small (p.seq + 1) (length p.consumers) some_queue small)

  enqueue_at-full :
      (i t : ℕ) (p : ThreadPool queue) (q : Q)
      → get_elem? p.consumers i ≡ some q
      → try_enqueue t q ≡ none
      → enqueue_at queue (ok i) t p ≡ (ok false, p)
  unfolding enqueue_at
  enqueue_at-full i t p q at full = ground (arith, at, full)

  -- The queue at place `i` takes the task, and the others are as they were, or it refuses it, and the
  -- pool is as it was; the caller is told which.
  abbrev pub Handed : ℕ → ℕ → ThreadPool queue → Outcome (ThreadPool queue) Bool → Type 0
  Handed i t p o =
      (q : Q) × (get_elem? p.consumers i ≡ some q)
      × (((q' : Q) × (try_enqueue t q ≡ some q')
            × (o ≡ (ok true, record p { consumers = set p.consumers i q' })))
          ⊎ ((try_enqueue t q ≡ none) × (o ≡ (ok false, p))))

  enqueue_at-taken :
      (i t : ℕ) (p : ThreadPool queue) (q q' : Q)
      → get_elem? p.consumers i ≡ some q
      → try_enqueue t q ≡ some q'
      → enqueue_at queue (ok i) t p ≡ (ok true, record p { consumers = set p.consumers i q' })
  unfolding enqueue_at
  enqueue_at-taken i t p q q' at taken = ground (arith, at, taken)

  enqueue_at-Handed :
      (i t : ℕ) (p : ThreadPool queue)
      → i < length p.consumers
      → Handed i t p (enqueue_at queue (ok i) t p)
  enqueue_at-Handed i t p below =
      let (q, at) = get_elem?-some p.consumers i below in
      (q, at, answer q at (try_enqueue t q) refl)
    where
      answer :
          (q : Q)
          → get_elem? p.consumers i ≡ some q
          → (r : Option Q) → try_enqueue t q ≡ r
          → ((q' : Q) × (try_enqueue t q ≡ some q')
              × (enqueue_at queue (ok i) t p
                  ≡ (ok true, record p { consumers = set p.consumers i q' })))
            ⊎ ((try_enqueue t q ≡ none) × (enqueue_at queue (ok i) t p ≡ (ok false, p)))
      answer q at (some q') taken = inl (q', taken, enqueue_at-taken i t p q q' at taken)
      answer q at none full = inr (full, enqueue_at-full i t p q at full)

  -- A full queue: nothing is inserted.
  pub insert-full :
      (t : ℕ) (p : ThreadPool queue) (q : Q)
      → p.stop ≡ false
      → 0 < length p.consumers
      → p.seq + 1 < 2 ^ 31
      → get_elem? p.consumers ((p.seq + 1) % length p.consumers) ≡ some q
      → try_enqueue t q ≡ none
      → insert queue t p ≡ (ok false, record p { seq = p.seq + 1 })
  insert-full t p q running some_queue small at full =
      insert-place t p running some_queue small
      ∙ enqueue_at-full ((p.seq + 1) % length p.consumers) t (record p { seq = p.seq + 1 }) q at
          full

  -- As long as the counter has not reached the largest `int`, `insert` into a running pool adds one
  -- to the counter and hands the task to the queue whose place is the new count modulo the number of
  -- queues, which is a place of the vector. The queue takes it, and is stored with it while all the
  -- others stay as they are, and the call returns true; or it refuses it, no queue changes, and the
  -- call returns false.
  pub insert-in_turn :
      (t : ℕ) (p : ThreadPool queue)
      → p.stop ≡ false
      → 0 < length p.consumers
      → p.seq + 1 < 2 ^ 31
      → Handed
          ((p.seq + 1) % length p.consumers)
          t
          (record p { seq = p.seq + 1 })
          (insert queue t p)
  insert-in_turn t p running some_queue small =
      let p' : ThreadPool queue = record p { seq = p.seq + 1 } in
      let i = (p.seq + 1) % length p.consumers in
      let place : i < length p.consumers = grind arith in
      subst (Handed i t p') (sym (insert-place t p running some_queue small))
        (enqueue_at-Handed i t p' place)

  num_index-ok : (a n : ℕ) → a ≤ n → num_index queue a n ≡ ok a
  unfolding num_index
  num_index-ok a n h = ground arith

  num_index-err :
      (a n : ℕ)
      → n < a
      → num_index queue a n ≡ err (runtime_error (bytes "invalid consumer number"))
  unfolding num_index
  num_index-err a n h = ground arith

  insert_num-running :
      (num t : ℕ) (p : ThreadPool queue)
      → p.stop ≡ false
      → insert_num queue num t p ≡ enqueue_at queue (num_index queue num (length p.consumers)) t p
  unfolding insert_num stop_check
  insert_num-running num t p h = rw h

  -- `insert` with a number, into a running pool: when there is a queue of that number, the task is
  -- handed to it, and it takes it, and is stored with it while all the others stay as they are, and the
  -- call returns true, or it refuses it, the pool does not change, and the call returns false; when
  -- the number is larger than the number of queues the call throws, and when it is equal to it, the
  -- vector is indexed out of range, in either case with the pool as it was.
  pub insert_num_cases :
      (num t : ℕ) (p : ThreadPool queue)
      → p.stop ≡ false
      → ((num < length p.consumers) × (Handed num t p (insert_num queue num t p)))
        ⊎ ((num ≡ length p.consumers) × (insert_num queue num t p ≡ (err undefined, p)))
        ⊎ ((length p.consumers < num)
            × (insert_num queue num t p
                ≡ (err (runtime_error (bytes "invalid consumer number")), p)))
  unfolding enqueue_at
  insert_num_cases num t p running =
      cases (ltb num (length p.consumers)) (ltb (length p.consumers) num) refl refl
    where
      ran :
          (r : Result ℕ)
          → num_index queue num (length p.consumers) ≡ r
          → insert_num queue num t p ≡ enqueue_at queue r t p
      ran r e = insert_num-running num t p running ∙ ap (λ x. enqueue_at queue x t p) e

      cases :
          (below above : Bool)
          → ltb num (length p.consumers) ≡ below
          → ltb (length p.consumers) num ≡ above
          → ((num < length p.consumers) × (Handed num t p (insert_num queue num t p)))
            ⊎ ((num ≡ length p.consumers) × (insert_num queue num t p ≡ (err undefined, p)))
            ⊎ ((length p.consumers < num)
                × (insert_num queue num t p
                    ≡ (err (runtime_error (bytes "invalid consumer number")), p)))
      cases true above b a =
          let below : num < length p.consumers = ground (arith, b) in
          inl (
            below,
            subst (Handed num t p) (sym (ran (ok num) (num_index-ok num _ (ground (arith, b)))))
                (enqueue_at-Handed num t p below),
          )
      cases false true b a = inr (
          inr (
            ground (arith, a),
            ran (err (runtime_error (bytes "invalid consumer number")))
                (num_index-err num _ (ground (arith, a))),
          ))
      cases false false b a = inr (
          inl (
            ground (arith, a, b),
            ran (ok num) (num_index-ok num _ (ground (arith, a, b)))
                ∙ enqueue_at-consumers num t p
                    (get_elem?-none p.consumers num (ground (arith, a, b))),
          ))
