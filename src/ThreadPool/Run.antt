-- ===== src/ThreadPool/Run.antt =====
-- The threads of a ThreadPool (src/com/thread_pool.h and thread_pool.cpp) at work: callers of `insert`
-- and `submit`, the caller of `stop` and the workers, whose loop is in the constructor. A step is
-- one access of a thread to what they share.
use yan.Prelude.{
  ℕ, zero, suc, ◌≡◌, ◌≢◌, ◌⊎◌, Bool, true, false, none, some, List, [], ◌∷◌, ◌++◌, get_elem?, set,
}
use yan.ThreadPool.{Queue}

-- Where a worker is in its loop: before the test for its end, before `try_dequeue`, in
-- `wait_dequeue_timed`, in a task, or behind its `return`.
pub data Worker : Type 0 where
  checking trying waiting returned : Worker
  running : ℕ → Worker

module _ (queue : Queue) where
  open queue use {Q, new_queue, try_enqueue, try_dequeue, size_approx}

  pub record Consumer : Type 0 where
    pub queue_ : Q
    pub worker : Worker

  -- A step of a worker when `stop_` is as given, and the tasks that it completes.
  pub data Work (stop : Bool) : Consumer → Consumer → List ℕ → Type 0 where
    check_out :
        {c : Consumer}
        → c.worker ≡ checking
        → stop ≡ true
        → size_approx c.queue_ ≡ 0
        → Work stop c (record c { worker = returned }) []
    check_on :
        {c : Consumer}
        → c.worker ≡ checking
        → (stop ≡ false) ⊎ (size_approx c.queue_ ≢ 0)
        → Work stop c (record c { worker = trying }) []
    take :
        {c : Consumer} {t : ℕ} {q : Q}
        → (c.worker ≡ trying) ⊎ (c.worker ≡ waiting)
        → try_dequeue c.queue_ ≡ some (t, q)
        → Work stop c (record { queue_ = q; worker = running t }) []
    miss :
        {c : Consumer}
        → c.worker ≡ trying
        → try_dequeue c.queue_ ≡ none
        → Work stop c (record c { worker = waiting }) []
    time_out :
        {c : Consumer}
        → c.worker ≡ waiting
        → try_dequeue c.queue_ ≡ none
        → Work stop c (record c { worker = checking }) []
    complete :
        {c : Consumer} {t : ℕ}
        → c.worker ≡ running t
        → Work stop c (record c { worker = checking }) (t ∷ [])

  -- `pending` are the calls that are behind their STOP_CHECK and before their `try_enqueue`, each
  -- with its place and its task; `accepted` are the tasks of which `try_enqueue` returned `true`,
  -- and `executed` those that have run to their end.
  pub record System : Type 0 where
    pub consumers : List Consumer
    pub stop : Bool
    pub pending : List (ℕ × ℕ)
    pub accepted : List ℕ
    pub executed : List ℕ

  pub data Step : System → System → Type 0 where
    call :
        {x : System} (i t : ℕ) → x.stop ≡ false → Step x (record x { pending = (i, t) ∷ x.pending })
    enqueue :
        {x : System} (i t : ℕ) (c : Consumer) (q : Q) (before behind : List (ℕ × ℕ))
        → x.pending ≡ before ++ (i, t) ∷ behind
        → get_elem? x.consumers i ≡ some c
        → try_enqueue t c.queue_ ≡ some q
        → Step x (record x {
          consumers = set x.consumers i (record c { queue_ = q });
          pending = before ++ behind;
          accepted = t ∷ x.accepted;
        })
    refuse :
        {x : System} (i t : ℕ) (c : Consumer) (before behind : List (ℕ × ℕ))
        → x.pending ≡ before ++ (i, t) ∷ behind
        → get_elem? x.consumers i ≡ some c
        → try_enqueue t c.queue_ ≡ none
        → Step x (record x { pending = before ++ behind })
    stop_all : {x : System} → Step x (record x { stop = true })
    work :
        {x : System} (i : ℕ) (c d : Consumer) (done : List ℕ)
        → get_elem? x.consumers i ≡ some c
        → Work x.stop c d done
        → Step x (record x { consumers = set x.consumers i d; executed = done ++ x.executed })

  pub data Steps (x : System) : System → Type 0 where
    here : Steps x x
    further : {y z : System} → Steps x y → Step y z → Steps x z

  -- `consumers_.resize(workers)`, with a queue and a thread for each.
  unfoldable pub new_consumers : ℕ → List Consumer
  new_consumers zero = []
  new_consumers (suc n) = record { queue_ = new_queue; worker = checking } ∷ new_consumers n

  unfoldable pub new_system : ℕ → System
  unfolding new_consumers
  new_system n = record {
    consumers = new_consumers n;
    stop = false;
    pending = [];
    accepted = [];
    executed = [];
  }
