-- ===== src/Tracer/Wrappers/Examples.antt =====
-- The wrappers in a program whose `dlsym` allocates 32 bytes with `calloc` for the first name, as that
-- of glibc does, with the temporary buffer at address 5000.
use assignment2_c.Prelude.{ℕ, suc, zero, ◌+◌, ◌≡◌, ◌<◌, false, List, [], ◌∷◌, arith, refl, pos}
use assignment2_c.Tracer.{temp_alloc}
use assignment2_c.Tracer.Wrappers.{
  Request, malloc_of, calloc_of, free_of, mmap_of, TracerState, Run, ok, crash, init, malloc,
  perform, perform_all, look_up, calloc, hand_on,
}
use assignment2_c.Tracer.Wrappers.Startup.{AllReady}
use assignment2_c.Tracer.Wrappers.Startup.First.{Starts, malloc-Starts}
use assignment2_c.Tracer.Wrappers.Startup.Missing.{malloc-missing}
use assignment2_c.Tracer.Wrappers.Depth.{Restores}
use assignment2_c.Tracer.Wrappers.Depth.Nested.{perform_two-Restores}
use assignment2_c.Tracer.Wrappers.Program.{IsForwarded, program-IsForwarded}

abbrev fresh : TracerState
fresh = record {
  found = 0;
  malloc_initializing = false;
  mmap_initializing = false;
  temp = record { tmppos = 0; tmpallocs = 0 };
  calls = [];
  bytes = λ a. 7;
}

-- The n-th call is answered with the address 100000 n.
abbrev libc : List Request → ℕ
libc [] = 0
libc (r ∷ rs) = 100000 + libc rs

-- A `malloc` in each later look-up is handed on.
abbrev dlsym : ℕ → List Request
dlsym zero = calloc_of 1 32 ∷ []
dlsym (suc i) = malloc_of 8 ∷ []

abbrev calloc_again : ℕ → List Request
calloc_again i = calloc_of 1 32 ∷ []

abbrev answer : Run ℕ → ℕ
answer (ok a s) = a
answer r = 0

first_answer : answer (malloc libc 5000 (init libc 5000 dlsym 2) 24 fresh) ≡ 700000
unfolding malloc init look_up perform_all perform calloc hand_on temp_alloc
first_answer = refl

dlsym-AllReady : (i : ℕ) → 0 < i → i < 7 → AllReady i (dlsym i)
dlsym-AllReady zero h l = absurd (omega (arith, h))
dlsym-AllReady (suc i) h l = (omega arith, tt)

malloc-Starts_example : Starts libc 5000 dlsym 2 24 fresh
malloc-Starts_example =
    malloc-Starts libc 5000 dlsym 1 24 fresh (omega arith) refl refl (tt, tt) (omega arith)
      dlsym-AllReady

malloc-missing_example : malloc libc 5000 (init libc 5000 calloc_again 2) 24 fresh ≡ crash
malloc-missing_example =
    malloc-missing libc 5000 calloc_again 1 24 1 (calloc_of 1 32) [] fresh (omega arith) refl refl
      (tt, tt) (omega arith) (λ j a c. absurd (omega (arith, a, c))) (omega arith) refl
      (omega arith, omega arith)

perform_two-Restores_example :
    Restores
      (perform libc 5000 (init libc 5000 dlsym 2) (mmap_of 0 4096 (pos 3) (pos 2) (pos 0) (pos 0)))
      fresh
perform_two-Restores_example =
    perform_two-Restores libc 5000 dlsym (mmap_of 0 4096 (pos 3) (pos 2) (pos 0) (pos 0)) fresh

-- The program gives its second block back, and something in the buffer.
program-IsForwarded_example :
    IsForwarded libc 5000 dlsym 2 24 (malloc_of 8 ∷ free_of 800000 ∷ free_of 5000 ∷ []) fresh
program-IsForwarded_example =
    program-IsForwarded libc 5000 dlsym 1 24 (malloc_of 8 ∷ free_of 800000 ∷ free_of 5000 ∷ [])
      fresh (omega arith) refl refl (tt, tt) (omega arith) dlsym-AllReady
