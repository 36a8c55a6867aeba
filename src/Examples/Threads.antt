-- ===== src/Examples/Threads.antt =====
-- A ThreadPool (src/com/thread_pool.h) of two workers whose queues are lists of at most two tasks.
use yan.Prelude.{
  ℕ, ◌+◌, ◌-◌, ◌^◌, ◌<◌, ◌≤◌, ◌≡◌, refl, ap, ◌⊎◌, inl, inr, Bool, true, false, Option, none, some,
  List, [], ◌∷◌, ◌++◌, ltb, ◌==◌, if◌then◌else◌, length, get_elem?, ok, err, runtime_error,
  undefined, arith,
}
use yan.Prelude.Text.{bytes, count, count-append}
use yan.Prelude.Total.{total}
use yan.ThreadPool.{Queue, IsQueue, ThreadPool, insert, insert_num}
use yan.ThreadPool.Run.{
  Worker, checking, trying, returned, running, Consumer, check_out, check_on, take, complete,
  System, call, enqueue, stop_all, work, Steps, here, further, new_consumers, new_system,
}
use yan.ThreadPool.Choice.{Handed, insert-in_turn, insert_num_cases}
use yan.ThreadPool.Wrapped.{is_some, insert-one_queue}
use yan.ThreadPool.Conservation.{in_hand, Steps-Conserved}
use yan.ThreadPool.Shutdown.{has_returned, stop-drains}
use yan.ThreadPool.Stranded.{Steps-stranded}

abbrev put : ℕ → List ℕ → Option (List ℕ)
put t q = if ltb (length q) 2 then some (q ++ t ∷ []) else none

abbrev take_first : List ℕ → Option (ℕ × List ℕ)
take_first [] = none
take_first (t ∷ q) = some (t, q)

abbrev pub lists : Queue
lists = record {
  Q = List ℕ;
  new_queue = [];
  try_enqueue = put;
  try_dequeue = take_first;
  size_approx = length;
  items = λ q. q;
}

lists-IsQueue : IsQueue lists
unfolding count
lists-IsQueue = record {
  items-new = refl;
  count-enqueue = λ t q q' e k. put_lem t q q' (ltb (length q) 2) e k;
  count-dequeue = λ t q q' e k. take_lem t q q' e k;
}
  where
    put_lem :
        (t : ℕ) (q q' : List ℕ) (b : Bool)
        → (if b then some (q ++ t ∷ []) else none) ≡ some q'
        → (k : ℕ) → count k q' ≡ count k q + (if t == k then 1 else 0)
    put_lem t q q' false e k = absurd (cc)
    put_lem t q q' true e k =
        let same : q ++ t ∷ [] ≡ q' = cc in
        omega (arith, ap (count k) same, count-append k q (t ∷ []))

    take_lem :
        (t : ℕ) (q q' : List ℕ)
        → take_first q ≡ some (t, q')
        → (k : ℕ) → count k q ≡ count k q' + (if t == k then 1 else 0)
    take_lem t [] q' e k = absurd (cc)
    take_lem t (u ∷ q) q' e k =
        let head : u ≡ t = cc in let tail : q ≡ q' = cc in grind (arith, head, ap (count k) tail)

lists-zero : (q : List ℕ) → length q ≡ 0 → q ≡ []
lists-zero [] e = refl
lists-zero (t ∷ q) e = absurd (omega arith)

abbrev two_queues : ThreadPool lists
two_queues = record { consumers = [] ∷ (4 ∷ []) ∷ []; stop = false; seq = 4 }

insert-in_turn_example :
    Handed lists 1 7 (record two_queues { seq = 5 }) (insert lists 7 two_queues)
insert-in_turn_example = insert-in_turn lists 7 two_queues refl (omega arith) (omega arith)

-- A pool with three queues, whose next turn is the least `int`.
abbrev worn : ThreadPool lists
worn = record { consumers = [] ∷ [] ∷ [] ∷ []; stop = false; seq = 2 ^ 31 - 1 }

insert_num_cases_example :
    ((1 < length two_queues.consumers)
      × (Handed lists 1 7 two_queues (insert_num lists 1 7 two_queues)))
    ⊎ ((1 ≡ length two_queues.consumers)
        × (insert_num lists 1 7 two_queues ≡ (err undefined, two_queues)))
    ⊎ ((length two_queues.consumers < 1)
        × (insert_num lists 1 7 two_queues
            ≡ (err (runtime_error (bytes "invalid consumer number")), two_queues)))
insert_num_cases_example = insert_num_cases lists 1 7 two_queues refl

abbrev consumer : List ℕ → Worker → Consumer lists
consumer q w = record { queue_ = q; worker = w }

-- Two workers, of which the second has nothing to do.
abbrev system : Consumer lists → Worker → Bool → List (ℕ × ℕ) → List ℕ → List ℕ → System lists
system c w stop pending accepted executed = record {
  consumers = c ∷ consumer [] w ∷ [];
  stop = stop;
  pending = pending;
  accepted = accepted;
  executed = executed;
}

-- One task has been accepted.
abbrev filled : Bool → System lists
filled stop = system (consumer (7 ∷ []) checking) checking stop [] (7 ∷ []) []

to_filled : Steps lists (new_system lists 2) (filled false)
unfolding new_system new_consumers
to_filled =
    further (further here (call 0 7 refl))
      (enqueue 0 7 (consumer [] checking) (7 ∷ []) [] [] refl refl refl)

-- Both workers have returned.
abbrev drained : System lists
drained = system (consumer [] returned) returned true [] (7 ∷ []) (7 ∷ [])

to_drained : Steps lists (filled true) drained
to_drained =
    further
      (further
        (further
          (further
            (further here (
              work 0 (consumer (7 ∷ []) checking) (consumer (7 ∷ []) trying) [] refl
                (check_on refl (inr (λ e. absurd (omega (arith, e)))))))
            (work 0 (consumer (7 ∷ []) trying) (consumer [] (running 7)) [] refl
              (take (inl refl) refl)))
          (work 0 (consumer [] (running 7)) (consumer [] checking) (7 ∷ []) refl (complete refl)))
        (work 0 (consumer [] checking) (consumer [] returned) [] refl (check_out refl refl refl)))
      (work 1 (consumer [] checking) (consumer [] returned) [] refl (check_out refl refl refl))

Steps-Conserved_example :
    count 7 (7 ∷ []) ≡ total (in_hand lists 7) (filled false).consumers + count 7 []
Steps-Conserved_example = Steps-Conserved lists lists-IsQueue 2 (filled false) to_filled 7

stop-drains_example : count 7 (7 ∷ []) ≡ count 7 (7 ∷ [])
unfolding has_returned
stop-drains_example =
    stop-drains lists lists-IsQueue lists-zero 2 (filled false) drained to_filled refl refl
      to_drained (refl, (refl, tt)) 7

-- A call was behind its STOP_CHECK when `stop` was called, and has put its task into the queue of a
-- worker that had returned.
abbrev late : Worker → System lists
late w = system (consumer (7 ∷ []) returned) w true [] (7 ∷ []) []

late_happens : Steps lists (new_system lists 2) (late checking)
unfolding new_system new_consumers
late_happens =
    further
      (further (further (further here (call 0 7 refl)) stop_all)
        (work 0 (consumer [] checking) (consumer [] returned) [] refl (check_out refl refl refl)))
      (enqueue 0 7 (consumer [] returned) (7 ∷ []) [] [] refl refl refl)

Steps-stranded_example :
    (d : Consumer lists) × (get_elem? (late returned).consumers 0 ≡ some d)
    × (has_returned d.worker ≡ true)
    × ((k : ℕ) → count k (7 ∷ []) ≤ count k d.queue_)
unfolding has_returned
Steps-stranded_example =
    Steps-stranded lists lists-IsQueue (late checking) (late returned) 0
      (consumer (7 ∷ []) returned) refl refl
      (further here
        (work 1 (consumer [] checking) (consumer [] returned) [] refl (check_out refl refl refl)))

-- A pool like the library's, whose counter has wrapped to a negative `int`.
abbrev one_worn : ThreadPool lists
one_worn = record { consumers = (4 ∷ []) ∷ []; stop = false; seq = 2 ^ 31 + 5 }

worn_pool_inserts : (insert lists 7 one_worn).0 ≡ ok (is_some (put 7 (4 ∷ [])))
worn_pool_inserts = insert-one_queue lists 7 one_worn (4 ∷ []) refl refl
