-- ===== src/ConnPool/Waiting.antt =====
-- What becomes of a thread that spins before the lock of a ConnectionPool (src/com/conn_pool.h).
use yan.Prelude.{
  ℕ, ◌<◌, ◌≡◌, ◌≢◌, refl, sym, ap, ◌∙◌, Bool, true, false, some, List, [], ◌∷◌, get_elem?, set,
  arith, get_elem?-set_ne, get_elem?-set_eq,
}
use yan.Prelude.Total.{total-some}
use yan.ConnPool.{
  ConnectionPool, new_pool, Thread, outside, getting, in_get, got, failed, releasing, in_release,
  put, Local, lock_get, pop_front, create, clear_get, clear_failed, lock_release, emplace_back,
  clear_release, System, thread, Steps, here, further,
}
use yan.ConnPool.Invariant.{inside, Fresh, IsSystem, Steps-IsSystem}

-- A thread before the `test_and_set` of `get` or `release`, and where it is when it has won it.
abbrev pub waiting : Thread → Bool
waiting (getting h) = true
waiting (releasing c h) = true
waiting t = false

abbrev pub behind : Thread → Thread
behind (getting h) = in_get h
behind (releasing c h) = in_release c h
behind t = t

-- Later steps of thread `j` alone, behind which the lock is free.
abbrev FreedBy : ℕ → System → System → Type 0
FreedBy j x y =
    Steps x y
    × (y.pool.spin_lock ≡ false)
    × ((i : ℕ) → j ≢ i → get_elem? y.threads i ≡ get_elem? x.threads i)

one_step :
    {x : System} {p : ConnectionPool} {t : Thread} (j : ℕ) (u : Thread)
    → get_elem? x.threads j ≡ some u
    → Local x.pool u p t
    → p.spin_lock ≡ false
    → (y : System) × FreedBy j x y
one_step {x} {p} {t} j u at s free = (
  record { pool = p; threads = set x.threads j t },
  (further here (thread j u at s), free, (λ i ne. get_elem?-set_ne x.threads j i t ne)),
)

two_steps :
    {x : System} {p q : ConnectionPool} {t v : Thread} (j : ℕ) (u : Thread)
    → get_elem? x.threads j ≡ some u
    → Local x.pool u p t
    → Local p t q v
    → q.spin_lock ≡ false
    → (y : System) × FreedBy j x y
two_steps {x} {p} {q} {t} {v} j u at s r free = (
  record { pool = q; threads = set (set x.threads j t) j v },
  (
    further (further here (thread j u at s)) (thread j t (get_elem?-set_eq x.threads j t u at) r),
    free,
    (λ i ne. get_elem?-set_ne (set x.threads j t) j i v ne ∙ get_elem?-set_ne x.threads j i t ne),
  ),
)

-- A thread inside leaves by steps of its own, and frees the lock.
inside-leaves :
    (x : System) (j : ℕ) (u : Thread)
    → get_elem? x.threads j ≡ some u
    → 0 < inside u
    → (y : System) × FreedBy j x y
unfolding inside
inside-leaves x j (in_get h) at e = go x.pool.conns refl
  where
    go : (cs : List ℕ) → x.pool.conns ≡ cs → (y : System) × FreedBy j x y
    go [] same = two_steps j (in_get h) at (create same) clear_get refl
    go (c ∷ cs) same = two_steps j (in_get h) at (pop_front same) clear_get refl
inside-leaves x j (got c h) at e = one_step j (got c h) at clear_get refl
inside-leaves x j (failed h) at e = one_step j (failed h) at clear_failed refl
inside-leaves x j (in_release c h) at e =
    two_steps j (in_release c h) at emplace_back clear_release refl
inside-leaves x j (put h) at e = one_step j (put h) at clear_release refl
inside-leaves x j (outside h) at e = absurd (omega (arith, e))
inside-leaves x j (getting h) at e = absurd (omega (arith, e))
inside-leaves x j (releasing c h) at e = absurd (omega (arith, e))

waiting-outside : (u : Thread) → waiting u ≡ true → inside u ≡ 0
unfolding inside
waiting-outside (getting h) w = refl
waiting-outside (releasing c h) w = refl
waiting-outside (outside h) w = absurd (cc)
waiting-outside (in_get h) w = absurd (cc)
waiting-outside (got c h) w = absurd (cc)
waiting-outside (failed h) w = absurd (cc)
waiting-outside (in_release c h) w = absurd (cc)
waiting-outside (put h) w = absurd (cc)

apart :
    (x : System) (i j : ℕ) (u t : Thread)
    → get_elem? x.threads i ≡ some u
    → inside u ≡ 0
    → get_elem? x.threads j ≡ some t
    → 0 < inside t
    → j ≢ i
apart x i j u t at_i out at_j pos e =
    let both : some t ≡ some u = sym at_j ∙ ap (get_elem? x.threads) e ∙ at_i in
    let same : t ≡ u = cc in absurd (omega (arith, ap inside same, out, pos))

-- The lock is freed by another thread, if it is taken.
freed :
    (x : System) (i : ℕ) (u : Thread)
    → IsSystem x
    → get_elem? x.threads i ≡ some u
    → inside u ≡ 0
    → (y : System) × Steps x y × (y.pool.spin_lock ≡ false) × (get_elem? y.threads i ≡ some u)
freed x i u v at out = go x.pool.spin_lock refl
  where
    go :
        (b : Bool)
        → x.pool.spin_lock ≡ b
        → (y : System) × Steps x y × (y.pool.spin_lock ≡ false) × (get_elem? y.threads i ≡ some u)
    go false e = (x, here, e, at)
    go true e =
        let (j, t, at_j, pos) = total-some inside x.threads (ground (arith, v.exclusive, e)) in
        let (y, (steps, free, same)) = inside-leaves x j t at_j pos in
        (y, steps, free, same i (apart x i j u t at out at_j pos) ∙ at)

enters :
    (p : ConnectionPool) (u : Thread)
    → waiting u ≡ true
    → p.spin_lock ≡ false
    → Local p u (record p { spin_lock = true }) (behind u)
enters p (getting h) w e = lock_get e
enters p (releasing c h) w e = lock_release e
enters p (outside h) w e = absurd (cc)
enters p (in_get h) w e = absurd (cc)
enters p (got c h) w e = absurd (cc)
enters p (failed h) w e = absurd (cc)
enters p (in_release c h) w e = absurd (cc)
enters p (put h) w e = absurd (cc)

-- In every state that threads which have not called anything come to from a new pool on, by whatever
-- steps, connections that fail to open among them: a thread that spins in `get` or `release` can
-- still be let in. There are steps from that state on after which it is the one behind its
-- `test_and_set`, with the lock taken.
pub Steps-waiting :
    (ts : List Thread)
    → Fresh ts
    → (x : System) → Steps (record { pool = new_pool; threads = ts }) x
    → (i : ℕ) (u : Thread) → get_elem? x.threads i ≡ some u
    → waiting u ≡ true
    → (y : System) × Steps x y
      × (y.pool.spin_lock ≡ true)
      × (get_elem? y.threads i ≡ some (behind u))
Steps-waiting ts h x steps i u at w =
    let (y, on, free, still) = freed x i u (Steps-IsSystem ts h x steps) at (waiting-outside u w) in
    (
      record { pool = record y.pool { spin_lock = true }; threads = set y.threads i (behind u) },
      further on (thread i u still (enters y.pool u w free)),
      refl,
      get_elem?-set_eq y.threads i (behind u) u still,
    )
