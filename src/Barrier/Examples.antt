-- ===== src/Barrier/Examples.antt =====
-- Two threads at a barrier for two.
use assignment2_c.Prelude.{ℕ, ◌+◌, ◌*◌, ◌≡◌, ◌<◌, ◌≤◌, refl, true, false, arith, pos}
use assignment2_c.Barrier.{
  my_barrier_init, free, Threads, arrive, lock, test, wake, relock, unlock, Reach, start, later,
}
use assignment2_c.Barrier.Meeting.{Met, Reach-Met, steps_left, IsAtRest, Reach-at_rest, Reach-alone}
use assignment2_c.Barrier.Settling.{Runs, IsSettled, Reach-settles}

-- The mutex could not be made.
init_fails : my_barrier_init (pos 12) (pos 0) 2 ≡ (pos 12, record { count = 0; num_threads = 2 })
unfolding my_barrier_init
init_fails = refl

-- One thread waits.
abbrev one_waits : Threads
one_waits = record {
  barrier = record { count = 1; num_threads = 2 };
  mutex = free;
  waiting = 1;
  woken = 0;
  arrivals = 1;
  passes = 0;
}

-- Both have passed.
abbrev both_passed : Threads
both_passed = record {
  barrier = record { count = 0; num_threads = 2 };
  mutex = free;
  waiting = 0;
  woken = 0;
  arrivals = 2;
  passes = 2;
}

one_waits-Reach : Reach false 2 one_waits
unfolding my_barrier_init arrive
one_waits-Reach = later (later start (lock refl)) (test refl)

both_passed-Reach : Reach false 2 both_passed
unfolding arrive
both_passed-Reach =
    later
      (later (later (later (later one_waits-Reach (lock refl)) (test refl)) (unlock refl))
        (relock refl (omega arith)))
      (unlock refl)

both_passed-IsAtRest : IsAtRest both_passed
both_passed-IsAtRest t (lock e) = tt
both_passed-IsAtRest t (test e) = cc
both_passed-IsAtRest t (wake b h) = cc
both_passed-IsAtRest t (relock e h) = absurd (omega arith)
both_passed-IsAtRest t (unlock e) = cc

Reach-Met_example : (rounds : ℕ) × Met 2 rounds both_passed
Reach-Met_example = Reach-Met 2 (omega arith) both_passed-Reach

Reach-at_rest_example :
    (rounds : ℕ) × (both_passed.passes ≡ 2 * rounds)
    × (both_passed.arrivals ≡ 2 * rounds + both_passed.waiting)
    × (both_passed.waiting < 2)
Reach-at_rest_example =
    Reach-at_rest 2 both_passed (omega arith) both_passed-Reach both_passed-IsAtRest

Reach-settles_example :
    ((k : ℕ) (t : Threads) → Runs one_waits k t → k ≤ steps_left one_waits)
    × ((k : ℕ) × (t : Threads) × Runs one_waits k t × IsAtRest t × IsSettled 2 t)
Reach-settles_example = Reach-settles 2 one_waits (omega arith) one_waits-Reach

Reach-alone_example : (s : Threads) × Reach true 3 s × (s.arrivals ≡ 1) × (s.passes ≡ 1)
Reach-alone_example = Reach-alone 3 (omega arith)
