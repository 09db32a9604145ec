-- ===== src/Barrier/Meeting.antt =====
-- The threads that pass the barrier have met at it, unless a wait returns with no cause.
use assignment2_c.Prelude.{
  ℕ, suc, ◌+◌, ◌*◌, ◌≡◌, ◌≤◌, ◌<◌, ◌⊎◌, refl, Bool, true, false, arith, inl, inr, ap, ◌==◌,
  Bool-cases, eq_of_==, ne_of_==, ==_of_ne, pos,
}
use assignment2_c.Barrier.{
  my_barrier_init, Mutex, free, arriving, leaving, Threads, arrive, Step, lock, test, wake, relock,
  unlock, initial, Reach, start, later,
}

-- A thread that holds the mutex on its way out.
abbrev pub outgoing : Mutex → ℕ
outgoing free = 0
outgoing arriving = 0
outgoing leaving = 1

-- `rounds` times all `n` threads have met.
pub record Met (n rounds : ℕ) (s : Threads) : Type 0 where
  pub threads : s.barrier.num_threads ≡ n
  pub arrived : s.arrivals ≡ n * rounds + s.barrier.count
  pub few : s.barrier.count < n
  pub all_wait : s.waiting ≡ s.barrier.count
  pub released : s.woken + outgoing s.mutex + s.passes ≡ n * rounds

mul_suc : (n k : ℕ) → n * suc k ≡ n * k + n
mul_suc n k = grind arith

arrive-Met :
    (n rounds : ℕ) (s : Threads)
    → s.mutex ≡ arriving
    → Met n rounds s
    → (rounds' : ℕ) × Met n rounds' (arrive s)
unfolding arrive
arrive-Met n rounds s e m = elim (Bool-cases (s.barrier.count + 1 == s.barrier.num_threads)) [
  | inl last ↦
      let h = eq_of_== (s.barrier.count + 1) s.barrier.num_threads last in
      let o : outgoing s.mutex ≡ 0 = ap outgoing e in
      (
        suc rounds,
        rw last (record {
          threads = m.threads;
          arrived = omega (arith, m.arrived, h, m.threads, mul_suc n rounds);
          few = omega (arith, m.few);
          all_wait = refl;
          released = omega (arith, m.released, m.all_wait, h, m.threads, o, mul_suc n rounds);
        }),
      )
  | inr early ↦
      let h = ne_of_== (s.barrier.count + 1) s.barrier.num_threads early in
      let o : outgoing s.mutex ≡ 0 = ap outgoing e in
      (
        rounds,
        rw early (record {
          threads = m.threads;
          arrived = omega (arith, m.arrived);
          few = omega (arith, h, m.few, m.threads);
          all_wait = omega (arith, m.all_wait);
          released = omega (arith, m.released, o);
        }),
      )
]

Step-Met :
    {n rounds : ℕ} {s t : Threads}
    → Step false s t
    → Met n rounds s
    → (rounds' : ℕ) × Met n rounds' t
Step-Met {n} {rounds} {s} (lock e) m = (
  rounds,
  record {
    threads = m.threads;
    arrived = m.arrived;
    few = m.few;
    all_wait = m.all_wait;
    released = omega (arith, m.released, ap outgoing e);
  },
)
Step-Met {n} {rounds} {s} (test e) m = arrive-Met n rounds s e m
Step-Met (wake bad some) m = cc
Step-Met {n} {rounds} {s} (relock e some) m = (
  rounds,
  record {
    threads = m.threads;
    arrived = m.arrived;
    few = m.few;
    all_wait = m.all_wait;
    released = omega (arith, m.released, ap outgoing e);
  },
)
Step-Met {n} {rounds} {s} (unlock e) m = (
  rounds,
  record {
    threads = m.threads;
    arrived = m.arrived;
    few = m.few;
    all_wait = m.all_wait;
    released = omega (arith, m.released, ap outgoing e);
  },
)

-- At a barrier for `n` threads, with any number of callers in any order and no spurious wake-up: the
-- arrivals are so many full rounds of `n` threads, and fewer than `n` that are counted and wait; and
-- the threads of the full rounds have passed, or have been woken. So no thread passes before all of
-- its round have arrived, and the barrier serves for another round at once.
pub Reach-Met : (n : ℕ) {s : Threads} → 0 < n → Reach false n s → (rounds : ℕ) × Met n rounds s
unfolding my_barrier_init
Reach-Met n some start = (
  0,
  record {
    threads = refl;
    arrived = omega arith;
    few = some;
    all_wait = refl;
    released = omega arith;
  },
)
Reach-Met n some (later r st) = let (rounds, m) = Reach-Met n some r in Step-Met st m

-- Whether a step is that of a thread that calls.
abbrev pub IsCall : {spurious : Bool} {s t : Threads} → Step spurious s t → Type 0
IsCall (lock e) = Unit {0}
IsCall (test e) = ⊥
IsCall (wake b h) = ⊥
IsCall (relock e h) = ⊥
IsCall (unlock e) = ⊥

-- How far the threads in `my_barrier_wait` still have to go.
abbrev pub holder_steps : Mutex → ℕ
holder_steps free = 0
holder_steps arriving = 4
holder_steps leaving = 1

abbrev pub steps_left : Threads → ℕ
steps_left s = holder_steps s.mutex + 3 * s.waiting + 2 * s.woken

arrive-steps_left : (s : Threads) → s.mutex ≡ arriving → steps_left (arrive s) < steps_left s
unfolding arrive
arrive-steps_left s e = elim (Bool-cases (s.barrier.count + 1 == s.barrier.num_threads)) [
  | inl last ↦ rw last (omega (arith, ap holder_steps e))
  | inr early ↦ rw early (omega (arith, ap holder_steps e))
]

-- Every step but a new call brings the threads nearer to the end, spurious or not: without new calls,
-- they come to rest.
pub Step-steps_left :
    (spurious : Bool) (s t : Threads) (st : Step spurious s t)
    → IsCall st ⊎ (steps_left t < steps_left s)
Step-steps_left spurious s t (lock e) = inl tt
Step-steps_left spurious s t (test e) = inr (arrive-steps_left s e)
Step-steps_left spurious s t (wake b h) = inr (omega arith)
Step-steps_left spurious s t (relock e h) = inr (omega (arith, ap holder_steps e))
Step-steps_left spurious s t (unlock e) = inr (omega (arith, ap holder_steps e))

-- No thread can go on but one that calls.
abbrev pub IsAtRest : Threads → Type 0
IsAtRest s = (t : Threads) (st : Step false s t) → IsCall st

pub mutex-cases : (m : Mutex) → (m ≡ free) ⊎ ((m ≡ arriving) ⊎ (m ≡ leaving))
mutex-cases free = inl refl
mutex-cases arriving = inr (inl refl)
mutex-cases leaving = inr (inr refl)

at_rest-woken : (s : Threads) → s.mutex ≡ free → IsAtRest s → s.woken ≡ 0
at_rest-woken s e rest = elim (Bool-cases (s.woken == 0)) [
  | inl z ↦ eq_of_== s.woken 0 z
  | inr z ↦ absurd (rest _ (relock e (omega (arith, ne_of_== s.woken 0 z))))
]

at_rest-free : (s : Threads) → IsAtRest s → s.mutex ≡ free
at_rest-free s rest = elim (mutex-cases s.mutex) [
  | inl e ↦ e
  | inr (inl e) ↦ absurd (rest _ (test e))
  | inr (inr e) ↦ absurd (rest _ (unlock e))
]

-- When no thread can go on but one that calls, every thread of a full round has passed, and those
-- that wait are fewer than `n`.
pub Reach-at_rest :
    (n : ℕ) (s : Threads)
    → 0 < n
    → Reach false n s
    → IsAtRest s
    → (rounds : ℕ) × (s.passes ≡ n * rounds)
      × (s.arrivals ≡ n * rounds + s.waiting)
      × (s.waiting < n)
Reach-at_rest n s some r rest =
    let (rounds, m) = Reach-Met n some r in
    let e = at_rest-free s rest in
    let z = at_rest-woken s e rest in
    (
      rounds,
      omega (arith, m.released, z, ap outgoing e),
      omega (arith, m.arrived, m.all_wait),
      omega (arith, m.few, m.all_wait),
    )

-- With a spurious wake-up, a thread passes a barrier for two or more threads as the only one that has
-- arrived.
pub Reach-alone :
    (n : ℕ) → 2 ≤ n → (s : Threads) × Reach true n s × (s.arrivals ≡ 1) × (s.passes ≡ 1)
unfolding my_barrier_init arrive
Reach-alone n h =
    let first : Threads = record (initial (my_barrier_init (pos 0) (pos 0) n).1) {
      mutex = arriving;
    } in
    let alone : Threads = record first {
      barrier = record { count = 1; num_threads = n };
      mutex = free;
      waiting = 1;
      arrivals = 1;
    } in
    let e : arrive first ≡ alone = rw (==_of_ne 1 n (omega arith)) in
    let tested : Reach true n (arrive first) = later (later start (lock refl)) (test refl) in
    let r : Reach true n alone = rw e at tested in
    (
      _,
      later (later (later r (wake refl (omega arith))) (relock refl (omega arith))) (unlock refl),
      refl,
      refl,
    )
