-- ===== src/Barrier.antt =====
-- The barrier of common_defs.h, at which the test programs let their threads meet, and the threads
-- that call it.
mod Examples
pub mod Meeting
pub mod Settling
use assignment2_c.Prelude.{
  ℕ, zero, suc, ◌+◌, ◌-◌, ◌≡◌, ◌<◌, Bool, true, false, ◌==◌, if◌then◌else◌, ℤ, pos, negsuc,
}

-- `my_barrier_t`, without its mutex and its condition variable.
pub record MyBarrier : Type 0 where
  pub count : ℕ
  pub num_threads : ℕ

abbrev pub is_zero : ℤ → Bool
is_zero (pos n) = n == 0
is_zero (negsuc n) = false

-- The two answers are those of `pthread_mutex_init` and `pthread_cond_init`.
unfoldable pub my_barrier_init : ℤ → ℤ → ℕ → ℤ × MyBarrier
my_barrier_init mutex_answer cond_answer num_threads =
    let barrier : MyBarrier = record { count = 0; num_threads = num_threads } in
    if is_zero mutex_answer
    then (if is_zero cond_answer then (pos 0, barrier) else (cond_answer, barrier))
    else (mutex_answer, barrier)

-- The mutex is free, or held by a thread in front of the test, or by one behind it.
pub data Mutex : Type 0 where
  free : Mutex
  arriving : Mutex
  leaving : Mutex

-- The threads in `my_barrier_wait`: those that wait for the condition, and those that have been
-- woken and wait for the mutex. `arrivals` and `passes` count what has happened so far.
pub record Threads : Type 0 where
  pub barrier : MyBarrier
  pub mutex : Mutex
  pub waiting : ℕ
  pub woken : ℕ
  pub arrivals : ℕ
  pub passes : ℕ

-- The test with the mutex held: the last thread wakes all others, any other waits and gives the
-- mutex back.
unfoldable pub arrive : Threads → Threads
arrive s =
    let count = s.barrier.count + 1 in
    if count == s.barrier.num_threads
    then record s {
      barrier = record { count = 0; num_threads = s.barrier.num_threads };
      mutex = leaving;
      waiting = 0;
      woken = s.woken + s.waiting;
      arrivals = s.arrivals + 1;
    }
    else record s {
      barrier = record { count = count; num_threads = s.barrier.num_threads };
      mutex = free;
      waiting = s.waiting + 1;
      arrivals = s.arrivals + 1;
    }

-- `my_barrier_wait`, by any number of threads in any order. `spurious` says that
-- `pthread_cond_wait` may return with no broadcast, as POSIX allows.
pub data Step (spurious : Bool) (s : Threads) : Threads → Type 0 where
  lock : s.mutex ≡ free → Step spurious s (record s { mutex = arriving })
  test : s.mutex ≡ arriving → Step spurious s (arrive s)
  wake :
      spurious ≡ true
      → 0 < s.waiting
      → Step spurious s (record s { waiting = s.waiting - 1; woken = s.woken + 1 })
  relock :
      s.mutex ≡ free
      → 0 < s.woken
      → Step spurious s (record s { mutex = leaving; woken = s.woken - 1 })
  unlock : s.mutex ≡ leaving → Step spurious s (record s { mutex = free; passes = s.passes + 1 })

abbrev pub initial : MyBarrier → Threads
initial barrier = record {
  barrier = barrier;
  mutex = free;
  waiting = 0;
  woken = 0;
  arrivals = 0;
  passes = 0;
}

-- From a barrier for `n` threads.
pub data Reach (spurious : Bool) (n : ℕ) : Threads → Type 0 where
  start : Reach spurious n (initial (my_barrier_init (pos 0) (pos 0) n).1)
  later : {s t : Threads} → Reach spurious n s → Step spurious s t → Reach spurious n t
