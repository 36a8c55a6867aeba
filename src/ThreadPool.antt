-- ===== src/ThreadPool.antt =====
-- src/com/thread_pool.h and thread_pool.cpp, ThreadPool: threads that run tasks, each with a queue of
-- its own. A task is a number. What a function does while no other thread interferes is here, and
-- how threads interleave in the child Run.
pub mod Choice
pub mod Wrapped
pub mod Run
pub mod Conservation
pub mod Shutdown
pub mod Stranded
use yan.Prelude.{
  ℕ, zero, suc, ◌+◌, ◌-◌, ◌%◌, ◌^◌, ◌≡◌, Bool, true, false, Option, none, some, List, [], ◌∷◌, ltb,
  ◌==◌, if◌then◌else◌, length, get_elem?, set, Result, ok, err, runtime_error, undefined, Outcome,
  ◌>>=◌,
}
use yan.Prelude.Text.{Text, bytes, count}

-- What the code uses of moodycamel::BlockingConcurrentQueue. `items` is what a queue holds.
pub record Queue : Type 1 where
  pub Q : Type 0
  pub new_queue : Q
  -- `false` is `none`
  pub try_enqueue : ℕ → Q → Option Q
  -- a dequeuing that comes to no end before its time is up is `none`, too
  pub try_dequeue : Q → Option (ℕ × Q)
  pub size_approx : Q → ℕ
  pub items : Q → List ℕ

-- What the queue documents of these: a task that is taken in or given out is one task more or less.
pub record IsQueue (queue : Queue) : Type 0 where
  pub items-new : queue.items queue.new_queue ≡ []
  pub count-enqueue :
      (t : ℕ) (q q' : queue.Q)
      → queue.try_enqueue t q ≡ some q'
      → (k : ℕ) → count k (queue.items q') ≡ count k (queue.items q) + (if t == k then 1 else 0)
  pub count-dequeue :
      (t : ℕ) (q q' : queue.Q)
      → queue.try_dequeue q ≡ some (t, q')
      → (k : ℕ) → count k (queue.items q) ≡ count k (queue.items q') + (if t == k then 1 else 0)

abbrev pub stopped : Text
stopped = bytes "this thread pool is stopped"

-- `++seq_` of a `std::atomic_int32_t`, as its bit pattern
unfoldable pub next_seq : ℕ → ℕ
next_seq seq = (seq + 1) % 2 ^ 32

-- The place that `consumers_[v % n]` is, where `v` is the `int` of that bit pattern: the remainder
-- has the sign of `v`, and a negative one is no index.
unfoldable pub int_index : ℕ → ℕ → Result ℕ
int_index v n =
    if n == 0
    then err undefined
    else if ltb v (2 ^ 31)
    then ok (v % n)
    else if (2 ^ 32 - v) % n == 0
    then ok 0
    else err undefined

module _ (queue : Queue) where
  open queue use {Q, new_queue, try_enqueue, try_dequeue, size_approx}

  pub record ThreadPool : Type 0 where
    -- the queues of `consumers_`
    pub consumers : List Q
    pub stop : Bool
    pub seq : ℕ

  -- The STOP_CHECK that each of the functions below begins with.
  unfoldable pub stop_check : ThreadPool → Result (Unit {0})
  stop_check p = if p.stop then err (runtime_error stopped) else ok tt

  -- `consumers_[i].queue_->try_enqueue(elem)`
  unfoldable pub enqueue_at : Result ℕ → ℕ → ThreadPool → Outcome ThreadPool Bool
  enqueue_at (err e) t p = (err e, p)
  enqueue_at (ok i) t p = elim (get_elem? p.consumers i) [
    | none ↦ (err undefined, p)
    | some q ↦ elim (try_enqueue t q) [
      | none ↦ (ok false, p)
      | some q' ↦ (ok true, record p { consumers = set p.consumers i q' })
    ]
  ]

  -- `++seq_ % get_consumer_num()` as the place to enqueue at
  unfoldable pub enqueue_next : ℕ → ThreadPool → Outcome ThreadPool Bool
  unfolding enqueue_at next_seq int_index
  enqueue_next t p =
      let v = next_seq p.seq in
      enqueue_at (int_index v (length p.consumers)) t (record p { seq = v })

  -- `hasher(key) % get_consumer_num()`, of `std::size_t`
  unfoldable pub hash_index : ℕ → ℕ → Result ℕ
  hash_index h n = if n == 0 then err undefined else ok (h % n)

  -- the test of the overloads that are given a number
  unfoldable pub num_index : ℕ → ℕ → Result ℕ
  num_index num n =
      if ltb n num then err (runtime_error (bytes "invalid consumer number")) else ok num

  -- `insert`, of which the constructor of the task throws nothing
  unfoldable pub insert : ℕ → ThreadPool → Outcome ThreadPool Bool
  unfolding stop_check enqueue_next
  insert t p = elim (stop_check p) [ err e ↦ (err e, p) | ok _ ↦ enqueue_next t p ]

  -- `insert(key, …)`, by the hash of the key
  unfoldable pub insert_key : ℕ → ℕ → ThreadPool → Outcome ThreadPool Bool
  unfolding stop_check enqueue_at hash_index
  insert_key h t p = elim (stop_check p) [
    | err e ↦ (err e, p)
    | ok _ ↦ enqueue_at (hash_index h (length p.consumers)) t p
  ]

  -- `insert(num, …)`
  unfoldable pub insert_num : ℕ → ℕ → ThreadPool → Outcome ThreadPool Bool
  unfolding stop_check enqueue_at num_index
  insert_num num t p = elim (stop_check p) [
    | err e ↦ (err e, p)
    | ok _ ↦ enqueue_at (num_index num (length p.consumers)) t p
  ]

  -- What `submit` makes of `try_enqueue`: the overloads with a key or a number throw on `false`, and
  -- the other gives a future all the same. The future of a task has the task's number.
  unfoldable pub checked_future : ℕ → Outcome ThreadPool Bool → Outcome ThreadPool ℕ
  checked_future t (err e, p) = (err e, p)
  checked_future t (ok true, p) = (ok t, p)
  checked_future t (ok false, p) = (err (runtime_error (bytes "enqueue failed")), p)

  unfoldable pub unchecked_future : ℕ → Outcome ThreadPool Bool → Outcome ThreadPool ℕ
  unchecked_future t (err e, p) = (err e, p)
  unchecked_future t (ok b, p) = (ok t, p)

  unfoldable pub submit : ℕ → ThreadPool → Outcome ThreadPool ℕ
  unfolding insert unchecked_future
  submit t p = unchecked_future t (insert t p)

  unfoldable pub submit_key : ℕ → ℕ → ThreadPool → Outcome ThreadPool ℕ
  unfolding insert_key checked_future
  submit_key h t p = checked_future t (insert_key h t p)

  unfoldable pub submit_num : ℕ → ℕ → ThreadPool → Outcome ThreadPool ℕ
  unfolding insert_num checked_future
  submit_num num t p = checked_future t (insert_num num t p)
