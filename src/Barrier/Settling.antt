-- ===== src/Barrier/Settling.antt =====
-- The barrier when no further thread calls: the threads in it come to rest, and with what.
use assignment2_c.Prelude.{
  ℕ, zero, suc, ◌+◌, ◌*◌, ◌≡◌, ◌≤◌, ◌<◌, ◌⊎◌, false, ◌==◌, arith, inl, inr, Bool-cases, eq_of_==,
  ne_of_==,
}
use assignment2_c.Barrier.{Threads, free, Step, lock, test, wake, relock, unlock, Reach, later}
use assignment2_c.Barrier.Meeting.{
  IsCall, steps_left, Step-steps_left, IsAtRest, Reach-at_rest, mutex-cases,
}

-- So many steps of threads that are in the barrier, with no call and no spurious wake-up.
pub data Runs (s : Threads) : ℕ → Threads → Type 0 where
  stop : Runs s 0 s
  go : {k : ℕ} {t u : Threads} → Runs s k t → (st : Step false t u) → ¬ IsCall st → Runs s (suc k) u

Runs-steps_left : {s t : Threads} {k : ℕ} → Runs s k t → k + steps_left t ≤ steps_left s
Runs-steps_left stop = omega arith
Runs-steps_left (go {k} {t} {u} r st moves) = elim (Step-steps_left false t u st) [
  | inl call ↦ absurd (moves call)
  | inr less ↦ omega (arith, less, Runs-steps_left r)
]

Runs-Reach :
    {n : ℕ} {s : Threads} {k : ℕ} {t : Threads} → Reach false n s → Runs s k t → Reach false n t
Runs-Reach reach stop = reach
Runs-Reach reach (go r st moves) = later (Runs-Reach reach r) st

no_woken-IsAtRest : (s : Threads) → s.mutex ≡ free → s.woken ≡ 0 → IsAtRest s
no_woken-IsAtRest s e z t (lock f) = tt
no_woken-IsAtRest s e z t (test f) = cc
no_woken-IsAtRest s e z t (wake b h) = cc
no_woken-IsAtRest s e z t (relock f h) = absurd (omega (arith, z, h))
no_woken-IsAtRest s e z t (unlock f) = cc

-- A thread in the barrier can go on, or none can.
next : (s : Threads) → IsAtRest s ⊎ ((t : Threads) × (st : Step false s t) × (¬ IsCall st))
next s = elim (mutex-cases s.mutex) [
  | inl e ↦ elim (Bool-cases (s.woken == 0)) [
    | inl z ↦ inl (no_woken-IsAtRest s e (eq_of_== s.woken 0 z))
    | inr z ↦ inr (_, relock e (omega (arith, ne_of_== s.woken 0 z)), λ c. c)
  ]
  | inr (inl e) ↦ inr (_, test e, λ c. c)
  | inr (inr e) ↦ inr (_, unlock e, λ c. c)
]

settle :
    (fuel : ℕ) (s t : Threads) (k : ℕ)
    → Runs s k t
    → steps_left t < fuel
    → (m : ℕ) × (u : Threads) × Runs s m u × IsAtRest u
settle zero s t k r h = absurd (omega (arith, h))
settle (suc fuel) s t k r h = elim (next t) [
  | inl rest ↦ (k, t, r, rest)
  | inr (u, st, moves) ↦ elim (Step-steps_left false t u st) [
    | inl call ↦ absurd (moves call)
    | inr less ↦ settle fuel s u (suc k) (go r st moves) (omega (arith, less, h))
  ]
]

-- Every thread of a full round has passed, and fewer than a round wait.
pub record IsSettled (n : ℕ) (s : Threads) : Type 0 where
  pub rounds : ℕ
  pub passed : s.passes ≡ n * rounds
  pub arrived : s.arrivals ≡ n * rounds + s.waiting
  pub few : s.waiting < n

-- At a barrier for at least one thread, with no spurious wake-up: from every state that any callers lead
-- to, the threads in the barrier can take at most `steps_left` steps if none calls, in whatever order;
-- and there are such steps that bring them to rest, with every thread of a full round let through and
-- fewer than a round waiting.
pub Reach-settles :
    (n : ℕ) (s : Threads)
    → 0 < n
    → Reach false n s
    → ((k : ℕ) (t : Threads) → Runs s k t → k ≤ steps_left s)
      × ((k : ℕ) × (t : Threads) × Runs s k t × IsAtRest t × IsSettled n t)
Reach-settles n s some reach =
    let (m, u, r, rest) = settle (suc (steps_left s)) s s 0 stop (omega arith) in
    let (rounds, passed, arrived, few) = Reach-at_rest n u some (Runs-Reach reach r) rest in
    (
      λ k t q. omega (arith, Runs-steps_left q),
      (m, u, r, rest, record { rounds = rounds; passed = passed; arrived = arrived; few = few }),
    )
