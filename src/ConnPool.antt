-- ===== src/ConnPool.antt =====
-- src/com/conn_pool.h, ConnectionPool: connections shared by threads behind a spin lock. A
-- connection is the number of its creation, and a step is one access of a thread to what they share;
-- the memory orders make an acquiring thread see what the releasing one wrote.
pub mod Invariant
pub mod Waiting
use yan.Prelude.{ℕ, ◌+◌, ◌≡◌, Bool, true, false, some, List, [], ◌∷◌, ◌++◌, get_elem?, set}

-- `spin_lock_`, `conns_` and `used_conns_`
pub record ConnectionPool : Type 0 where
  pub spin_lock : Bool
  pub conns : List ℕ
  pub used_conns : ℕ

abbrev pub new_pool : ConnectionPool
new_pool = record { spin_lock = false; conns = []; used_conns = 0 }

-- Where a thread is, with the connections that it has got and not released.
pub data Thread : Type 0 where
  -- in neither function
  outside : List ℕ → Thread
  -- before the `test_and_set` of `get`, behind it, and before the `clear` with a connection
  getting : List ℕ → Thread
  in_get : List ℕ → Thread
  got : ℕ → List ℕ → Thread
  -- before the `clear` in the handler of `get`
  failed : List ℕ → Thread
  -- before the `test_and_set` of `release`, behind it, and before the `clear`
  releasing : ℕ → List ℕ → Thread
  in_release : ℕ → List ℕ → Thread
  put : List ℕ → Thread

-- A step of one thread.
pub data Local : ConnectionPool → Thread → ConnectionPool → Thread → Type 0 where
  call_get : {p : ConnectionPool} {h : List ℕ} → Local p (outside h) p (getting h)
  spin_get :
      {p : ConnectionPool} {h : List ℕ} → p.spin_lock ≡ true → Local p (getting h) p (getting h)
  lock_get :
      {p : ConnectionPool} {h : List ℕ}
      → p.spin_lock ≡ false
      → Local p (getting h) (record p { spin_lock = true }) (in_get h)
  pop_front :
      {p : ConnectionPool} {h : List ℕ} {c : ℕ} {cs : List ℕ}
      → p.conns ≡ c ∷ cs
      → Local p (in_get h) (record p { conns = cs }) (got c h)
  create :
      {p : ConnectionPool} {h : List ℕ}
      → p.conns ≡ []
      → Local p (in_get h) (record p { used_conns = p.used_conns + 1 }) (got p.used_conns h)
  create_throws : {p : ConnectionPool} {h : List ℕ} → p.conns ≡ [] → Local p (in_get h) p (failed h)
  clear_get :
      {p : ConnectionPool} {h : List ℕ} {c : ℕ}
      → Local p (got c h) (record p { spin_lock = false }) (outside (c ∷ h))
  clear_failed :
      {p : ConnectionPool} {h : List ℕ}
      → Local p (failed h) (record p { spin_lock = false }) (outside h)
  call_release :
      {p : ConnectionPool} (h : List ℕ) (c : ℕ) (k : List ℕ)
      → Local p (outside (h ++ c ∷ k)) p (releasing c (h ++ k))
  release_null : {p : ConnectionPool} {h : List ℕ} → Local p (outside h) p (outside h)
  spin_release :
      {p : ConnectionPool} {h : List ℕ} {c : ℕ}
      → p.spin_lock ≡ true
      → Local p (releasing c h) p (releasing c h)
  lock_release :
      {p : ConnectionPool} {h : List ℕ} {c : ℕ}
      → p.spin_lock ≡ false
      → Local p (releasing c h) (record p { spin_lock = true }) (in_release c h)
  emplace_back :
      {p : ConnectionPool} {h : List ℕ} {c : ℕ}
      → Local p (in_release c h) (record p { conns = p.conns ++ c ∷ [] }) (put h)
  clear_release :
      {p : ConnectionPool} {h : List ℕ}
      → Local p (put h) (record p { spin_lock = false }) (outside h)

pub record System : Type 0 where
  pub pool : ConnectionPool
  pub threads : List Thread

pub data Step : System → System → Type 0 where
  thread :
      {x : System} {p : ConnectionPool} {t : Thread} (i : ℕ) (u : Thread)
      → get_elem? x.threads i ≡ some u
      → Local x.pool u p t
      → Step x (record { pool = p; threads = set x.threads i t })

pub data Steps (x : System) : System → Type 0 where
  here : Steps x x
  further : {y z : System} → Steps x y → Step y z → Steps x z
