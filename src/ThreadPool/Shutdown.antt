-- ===== src/ThreadPool/Shutdown.antt =====
-- What becomes of the tasks of a ThreadPool (src/com/thread_pool.cpp) once `stop` was called.
use yan.Prelude.{
  ℕ, zero, suc, ◌≡◌, ◌≢◌, refl, sym, ap, subst, ◌∙◌, Bool, true, false, List, [], ◌∷◌, ◌++◌, All,
  All-set, All-get, arith,
}
use yan.Prelude.Text.{count}
use yan.Prelude.Total.{total-zero}
use yan.ThreadPool.{Queue, IsQueue}
use yan.ThreadPool.Run.{
  Worker, checking, trying, waiting, returned, running, Consumer, Work, check_out, check_on, take,
  miss, time_out, complete, System, Step, call, enqueue, refuse, stop_all, work, Steps, here,
  further, new_consumers, new_system,
}
use yan.ThreadPool.Conservation.{runs, in_hand, Steps-Conserved}

unfoldable pub has_returned : Worker → Bool
has_returned returned = true
has_returned w = false

not_empty {ℓ} : {A : Type ℓ} (x : A) (xs ys : List A) → xs ++ x ∷ ys ≢ []
not_empty x [] ys e = cc
not_empty x (y ∷ xs) ys e = cc

module _ (queue : Queue) (laws : IsQueue queue) where
  open queue use {Q, try_enqueue, size_approx, items}

  -- A consumer whose worker goes on.
  abbrev pub AtWork : Consumer queue → Type 0
  AtWork c = has_returned c.worker ≡ false

  Work-AtWork : {c d : Consumer queue} {done : List ℕ} → Work queue false c d done → AtWork d
  unfolding has_returned
  Work-AtWork (check_out w s z) = absurd (cc)
  Work-AtWork (check_on w s) = refl
  Work-AtWork (take w e) = refl
  Work-AtWork (miss w e) = refl
  Work-AtWork (time_out w e) = refl
  Work-AtWork (complete w) = refl

  -- While the pool is not stopped, no worker has returned.
  Open : System queue → Type 0
  Open x = x.stop ≡ false → All AtWork x.consumers

  Step-Open : {x y : System queue} → Step queue x y → Open x → Open y
  unfolding Open has_returned
  Step-Open (call i t s) h = h
  Step-Open {x} (enqueue i t c q before behind p at e) h = λ s.
      All-set AtWork x.consumers i (record c { queue_ = q }) (h s)
        (All-get AtWork x.consumers i c (h s) at)
  Step-Open (refuse i t c before behind p at e) h = h
  Step-Open stop_all h = λ s. absurd (cc)
  Step-Open {x} (work i c d done at w) h = λ s.
      All-set AtWork x.consumers i d (h s) (Work-AtWork (subst (λ b. Work queue b c d done) s w))

  new_consumers-AtWork : (n : ℕ) → All AtWork (new_consumers queue n)
  unfolding new_consumers has_returned
  new_consumers-AtWork zero = tt
  new_consumers-AtWork (suc n) = (refl, new_consumers-AtWork n)

  Steps-Open : (n : ℕ) {x : System queue} → Steps queue (new_system queue n) x → Open x
  unfolding Open new_system
  Steps-Open n here = λ s. new_consumers-AtWork n
  Steps-Open n (further steps s) = Step-Open s (Steps-Open n steps)

  -- A consumer that leaves nothing behind.
  abbrev pub Quiet : Consumer queue → Type 0
  Quiet c = has_returned c.worker ≡ true → items c.queue_ ≡ []

  -- A stopped pool into which nobody is about to put a task.
  Draining : System queue → Type 0
  Draining x = (x.stop ≡ true) × (x.pending ≡ []) × All Quiet x.consumers

  Steps-append : {x y z : System queue} → Steps queue x y → Steps queue y z → Steps queue x z
  Steps-append first here = first
  Steps-append first (further second s) = further (Steps-append first second) s

  module _ (size_approx_zero : (q : Q) → size_approx q ≡ 0 → items q ≡ []) where
    Work-Quiet :
        {stop : Bool} {c d : Consumer queue} {done : List ℕ} → Work queue stop c d done → Quiet d
    unfolding has_returned
    Work-Quiet (check_out {c} w s z) = λ r. size_approx_zero c.queue_ z
    Work-Quiet (check_on w s) = λ r. absurd (cc)
    Work-Quiet (take w e) = λ r. absurd (cc)
    Work-Quiet (miss w e) = λ r. absurd (cc)
    Work-Quiet (time_out w e) = λ r. absurd (cc)
    Work-Quiet (complete w) = λ r. absurd (cc)

    Step-Draining : {x y : System queue} → Step queue x y → Draining x → Draining y
    unfolding Draining
    Step-Draining (call i t s) (stop, none_pending, quiet) = absurd (cc)
    Step-Draining (enqueue i t c q before behind p at e) (stop, none_pending, quiet) =
        absurd (not_empty _ before behind (sym p ∙ none_pending))
    Step-Draining (refuse i t c before behind p at e) (stop, none_pending, quiet) =
        absurd (not_empty _ before behind (sym p ∙ none_pending))
    Step-Draining stop_all (stop, none_pending, quiet) = (refl, none_pending, quiet)
    Step-Draining {x} (work i c d done at w) (stop, none_pending, quiet) =
        (stop, none_pending, All-set Quiet x.consumers i d quiet (Work-Quiet w))

    Steps-Draining : {x y : System queue} → Steps queue x y → Draining x → Draining y
    Steps-Draining here h = h
    Steps-Draining (further steps s) h = Step-Draining s (Steps-Draining steps h)

    All-Quiet : (cs : List (Consumer queue)) → All AtWork cs → All Quiet cs
    All-Quiet [] h = tt
    All-Quiet (c ∷ cs) h = (λ r. absurd (cc (h.0)), All-Quiet cs h.1)

    Quiet-in_hand :
        (k : ℕ) (c : Consumer queue)
        → Quiet c
        → has_returned c.worker ≡ true
        → in_hand queue k c ≡ 0
    unfolding in_hand runs count has_returned
    Quiet-in_hand k c quiet r = omega (arith, ap (count k) (quiet r), no_runs c.worker r)
      where
        no_runs : (w : Worker) → has_returned w ≡ true → runs k w ≡ 0
        no_runs checking e = refl
        no_runs trying e = refl
        no_runs waiting e = refl
        no_runs returned e = refl
        no_runs (running t) e = absurd (cc)

    All-in_hand :
        (k : ℕ) (cs : List (Consumer queue))
        → All Quiet cs
        → All (λ c. has_returned c.worker ≡ true) cs
        → All (λ c. in_hand queue k c ≡ 0) cs
    All-in_hand k [] q r = tt
    All-in_hand k (c ∷ cs) q r = (Quiet-in_hand k c q.0 r.0, All-in_hand k cs q.1 r.1)

    -- When a pool is stopped at a moment at which no call stands between its STOP_CHECK and its
    -- `try_enqueue`, and all workers have returned, then every task that was accepted has been
    -- executed, as often as it was accepted.
    pub stop-drains :
        (n : ℕ) (x y : System queue)
        → Steps queue (new_system queue n) x
        → x.stop ≡ false
        → x.pending ≡ []
        → Steps queue (record x { stop = true }) y
        → All (λ c. has_returned c.worker ≡ true) y.consumers
        → (k : ℕ) → count k y.accepted ≡ count k y.executed
    unfolding Draining Open
    stop-drains n x y before open_ no_calls after all k =
        let (stopped, none_pending, quiet) : Draining y =
          Steps-Draining after
            (refl, no_calls, All-Quiet x.consumers (Steps-Open n before open_)) in
        omega (
          arith,
          Steps-Conserved queue laws n y (Steps-append (further before stop_all) after) k,
          total-zero (in_hand queue k) y.consumers (All-in_hand k y.consumers quiet all),
        )
