-- ===== src/ConnPool/Invariant.antt =====
-- What the threads that share a ConnectionPool (src/com/conn_pool.h) never do.
use yan.Prelude.{ℕ, ◌+◌, ◌≤◌, ◌≡◌, refl, ap, List, [], ◌∷◌, ltb, ◌==◌, if◌then◌else◌, arith}
use yan.Prelude.Total.{total, total-set, total-ge}
use yan.Prelude.Text.{count, count-append}
use yan.ConnPool.{
  ConnectionPool, new_pool, Thread, outside, getting, in_get, got, failed, releasing, in_release,
  put, Local, call_get, spin_get, lock_get, pop_front, create, create_throws, clear_get,
  clear_failed, call_release, release_null, spin_release, lock_release, emplace_back, clear_release,
  System, Step, thread, Steps, here, further,
}

-- Whether a thread is behind a `test_and_set` that it won and before its `clear`.
unfoldable pub inside : Thread → ℕ
inside (in_get h) = 1
inside (got c h) = 1
inside (failed h) = 1
inside (in_release c h) = 1
inside (put h) = 1
inside t = 0

-- How often a thread has a connection.
unfoldable pub holds : ℕ → Thread → ℕ
holds k (outside h) = count k h
holds k (getting h) = count k h
holds k (in_get h) = count k h
holds k (got c h) = count k (c ∷ h)
holds k (failed h) = count k h
holds k (releasing c h) = count k (c ∷ h)
holds k (in_release c h) = count k (c ∷ h)
holds k (put h) = count k h

abbrev pub locked : ConnectionPool → ℕ
locked p = if p.spin_lock then 1 else 0

-- A connection that has been created.
abbrev pub born : ℕ → ConnectionPool → ℕ
born k p = if ltb k p.used_conns then 1 else 0

count_cons : (k c : ℕ) (l : List ℕ) → count k (c ∷ l) ≡ (if c == k then 1 else 0) + count k l
unfolding count
count_cons k c l = refl

-- The lock is taken as often as a thread is inside.
Local-lock :
    {p q : ConnectionPool} {t u : Thread}
    → Local p u q t
    → inside u ≤ locked p
    → inside t + locked p ≡ inside u + locked q
unfolding inside
Local-lock call_get h = refl
Local-lock (spin_get e) h = refl
Local-lock (lock_get e) h = ground arith
Local-lock (pop_front e) h = refl
Local-lock (create e) h = refl
Local-lock (create_throws e) h = refl
Local-lock clear_get h = ground arith
Local-lock clear_failed h = ground arith
Local-lock (call_release h1 c k) h = refl
Local-lock release_null h = refl
Local-lock (spin_release e) h = refl
Local-lock (lock_release e) h = ground arith
Local-lock emplace_back h = refl
Local-lock clear_release h = ground arith

Local-count :
    (k : ℕ) {p q : ConnectionPool} {t u : Thread}
    → Local p u q t
    → (count k q.conns + holds k t) + born k p ≡ (count k p.conns + holds k u) + born k q
unfolding holds count
Local-count k call_get = refl
Local-count k (spin_get e) = refl
Local-count k (lock_get e) = refl
Local-count k {p} (pop_front {c = c} {cs = cs} e) = omega (arith, ap (count k) e)
Local-count k {p} (create e) = ground arith
Local-count k (create_throws e) = refl
Local-count k clear_get = refl
Local-count k clear_failed = refl
Local-count k (call_release h c l) =
    omega (arith, count-append k h l, count-append k h (c ∷ l), count_cons k c l)
Local-count k release_null = refl
Local-count k (spin_release e) = refl
Local-count k (lock_release e) = refl
Local-count k {p} (emplace_back {h = h} {c = c}) =
    omega (arith, count-append k p.conns (c ∷ []), count_cons k c [])
Local-count k clear_release = refl

-- One thread at most is inside, and exactly when the lock is taken. Each connection that has been
-- created is in one place: in the pool once, or with one thread once.
pub record IsSystem (x : System) : Type 0 where
  pub exclusive : total inside x.threads ≡ locked x.pool
  pub once : (k : ℕ) → count k x.pool.conns + total (holds k) x.threads ≡ born k x.pool

-- Threads that have not called anything yet.
abbrev pub Fresh : List Thread → Type 0
Fresh [] = Unit
Fresh (t ∷ ts) = (t ≡ outside []) × Fresh ts

total-Fresh : (f : Thread → ℕ) → f (outside []) ≡ 0 → (ts : List Thread) → Fresh ts → total f ts ≡ 0
unfolding total
total-Fresh f z [] h = refl
total-Fresh f z (t ∷ ts) (e, h) = omega (arith, z, ap f e, total-Fresh f z ts h)

inside_fresh : inside (outside []) ≡ 0
unfolding inside
inside_fresh = refl

holds_fresh : (k : ℕ) → holds k (outside []) ≡ 0
unfolding holds count
holds_fresh k = refl

count_nil : (k : ℕ) → count k [] ≡ 0
unfolding count
count_nil k = refl

not_born : (k : ℕ) → born k new_pool ≡ 0
not_born k = ground arith

Fresh-IsSystem : (ts : List Thread) → Fresh ts → IsSystem (record { pool = new_pool; threads = ts })
Fresh-IsSystem ts h = record {
  exclusive = total-Fresh inside inside_fresh ts h;
  once = λ k. omega (arith, count_nil k, total-Fresh (holds k) (holds_fresh k) ts h, not_born k);
}

Step-IsSystem : {x y : System} → Step x y → IsSystem x → IsSystem y
Step-IsSystem {x} (thread {p = p} {t = t} i u e s) v = record {
  exclusive = omega (
    arith,
    total-set inside x.threads i t u e,
    v.exclusive,
    Local-lock s (omega (arith, total-ge inside x.threads i u e, v.exclusive)),
  );
  once = λ k. omega (arith, total-set (holds k) x.threads i t u e, v.once k, Local-count k s);
}

-- However the steps of the threads follow each other, connections that fail to open among them, at
-- most one thread is between its `test_and_set` and its `clear`, and every connection that has been
-- created is either once in the pool or once with one thread: none is lost, and none is given to two
-- threads or twice to one.
pub Steps-IsSystem :
    (ts : List Thread)
    → Fresh ts
    → (x : System) → Steps (record { pool = new_pool; threads = ts }) x
    → IsSystem x
Steps-IsSystem ts h _ here = Fresh-IsSystem ts h
Steps-IsSystem ts h x (further steps s) = Step-IsSystem s (Steps-IsSystem ts h _ steps)
