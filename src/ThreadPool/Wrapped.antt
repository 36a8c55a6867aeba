-- ===== src/ThreadPool/Wrapped.antt =====
-- What ThreadPool::insert (src/com/thread_pool.h) does when its counter has left the range of `int`.
use yan.Prelude.{
  ℕ, ◌+◌, ◌-◌, ◌%◌, ◌^◌, ◌≤◌, ◌<◌, ◌≡◌, ◌≢◌, ap, ◌∙◌, Bool, true, false, Option, none, some, [],
  ◌∷◌, length, get_elem?, ok, err, undefined, arith, Outcome,
}
use yan.ThreadPool.{Queue, ThreadPool, next_seq, int_index, enqueue_at, enqueue_next, insert}
use yan.ThreadPool.Choice.{next_seq_small, insert-running}

abbrev pub is_some {ℓ} : {A : Type ℓ} → Option A → Bool
is_some none = false
is_some (some a) = true

int_index_large :
    (v n : ℕ) → 0 < n → 2 ^ 31 ≤ v → (2 ^ 32 - v) % n ≢ 0 → int_index v n ≡ err undefined
unfolding int_index
int_index_large v n pos large rest = ground arith

one_index : (v : ℕ) → v < 2 ^ 32 → int_index v 1 ≡ ok 0
unfolding int_index
one_index v h =
    let positive : v % 1 ≡ 0 = omega arith in
    let negative : (2 ^ 32 - v) % 1 ≡ 0 = omega arith in ground (arith, positive, negative)

module _ (queue : Queue) where
  open queue use {Q, try_enqueue}

  enqueue_at-some :
      (i t : ℕ) (p : ThreadPool queue) (q : Q)
      → get_elem? p.consumers i ≡ some q
      → (enqueue_at queue (ok i) t p).0 ≡ ok (is_some (try_enqueue t q))
  unfolding enqueue_at
  enqueue_at-some i t p q e = ground (arith, e)

  -- A pool with one queue: every `insert` into it while it runs goes to that queue, however often the
  -- counter has wrapped.
  pub insert-one_queue :
      (t : ℕ) (p : ThreadPool queue) (q : Q)
      → p.stop ≡ false
      → p.consumers ≡ q ∷ []
      → (insert queue t p).0 ≡ ok (is_some (try_enqueue t q))
  unfolding enqueue_next next_seq
  insert-one_queue t p q running one =
      ap (λ (o : Outcome (ThreadPool queue) Bool). o.0) (insert-running queue t p running)
      ∙ ap
          (λ n.
            (enqueue_at queue (int_index (next_seq p.seq) n) t
              (record p { seq = next_seq p.seq })).0)
          (ap length one)
      ∙ ap (λ r. (enqueue_at queue r t (record p { seq = next_seq p.seq })).0)
          (one_index (next_seq p.seq) (omega arith))
      ∙ enqueue_at-some 0 t (record p { seq = next_seq p.seq }) q (ap (λ qs. get_elem? qs 0) one)

  -- Once the counter is past the largest `int`, its remainder is negative: unless it is zero, the
  -- call of `insert` indexes the vector out of range.
  insert-past_int :
      (t : ℕ) (p : ThreadPool queue)
      → p.stop ≡ false
      → 0 < length p.consumers
      → 2 ^ 31 ≤ p.seq + 1
      → p.seq + 1 < 2 ^ 32
      → (2 ^ 32 - (p.seq + 1)) % length p.consumers ≢ 0
      → (insert queue t p).0 ≡ err undefined
  unfolding enqueue_next enqueue_at
  insert-past_int t p running some_queue large small rest =
      let n = length p.consumers in
      let v : next_seq p.seq ≡ p.seq + 1 = next_seq_small p.seq small in
      let index : int_index (next_seq p.seq) n ≡ err undefined =
        ap (λ x. int_index x n) v ∙ int_index_large (p.seq + 1) n some_queue large rest in
      ap (λ (o : Outcome (ThreadPool queue) Bool). o.0) (insert-running queue t p running)
      ∙ ap (λ r. (enqueue_at queue r t (record p { seq = next_seq p.seq })).0) index
