-- ===== src/Events/Calls/Turn.antt =====
-- What a call of the library (src/sqlite/sqlite.h) returns when the queue of the thread pool whose
-- turn it is has no room.
use yan.Prelude.{ℕ, ◌+◌, ◌%◌, ◌^◌, ◌<◌, ◌≡◌, ap, false, none, some, length, get_elem?, ok}
use yan.ThreadPool.{Queue, ThreadPool, submit, unchecked_future}
use yan.ThreadPool.Choice.{insert-full}
use yan.Events.Calls.{promised, inserted, create_event, submitted, commit_union}

module _ (queue : Queue) where
  open queue use {Q, try_enqueue}

  -- A call whose event or task the queue does not take, since it is full, returns the future of that
  -- event or task all the same, and all queues are what they were: nobody will run it.
  pub refused_silently :
      {E : Type 0} (event : E) (t : ℕ) (p : ThreadPool queue) (q : Q)
      → p.stop ≡ false
      → 0 < length p.consumers
      → p.seq + 1 < 2 ^ 31
      → get_elem? p.consumers ((p.seq + 1) % length p.consumers) ≡ some q
      → try_enqueue t q ≡ none
      → (create_event queue (ok event) t p ≡ (ok (promised t), record p { seq = p.seq + 1 }))
        × (commit_union queue t p ≡ (ok (promised t), record p { seq = p.seq + 1 }))
  unfolding create_event inserted commit_union submitted submit unchecked_future
  refused_silently event t p q running some_queue small at full =
      let r = insert-full queue t p q running some_queue small at full in
      (ap (inserted queue t) r, ap (λ o. submitted queue (unchecked_future queue t o)) r)
