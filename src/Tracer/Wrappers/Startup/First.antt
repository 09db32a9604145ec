-- ===== src/Tracer/Wrappers/Startup/First.antt =====
-- The first `malloc` of a program, with `init` all the way through.
use assignment2_c.Prelude.{ℕ, suc, ◌+◌, ◌≡◌, ◌<◌, true, false, refl, List, ◌∷◌, arith, ==_of_eq}
use assignment2_c.Manager.{Adress}
use assignment2_c.Tracer.{tmpbuff_size}
use assignment2_c.Tracer.Wrappers.{
  Request, malloc_of, TracerState, ok, hand_on, look_up, init, malloc, set_malloc_busy, ◌>>◌,
}
use assignment2_c.Tracer.Wrappers.Startup.{
  total, AllFresh, AllReady, state, handed, look_up-ready, perform_all-Buffered,
}

-- libc answers, all pointers are set, and the call is the last that libc has seen.
pub record Starts (libc : List Request → ℕ) (tmpbuff : Adress) (dlsym : ℕ → List Request)
    (depth size : ℕ) (s : TracerState) : Type 0 where
  pub later : TracerState
  pub answers :
      malloc libc tmpbuff (init libc tmpbuff dlsym depth) size s
      ≡ ok (libc (malloc_of size ∷ handed dlsym 6 1 s.calls)) later
  pub found : later.found ≡ 7
  pub idle : later.malloc_initializing ≡ false
  pub called : later.calls ≡ malloc_of size ∷ handed dlsym 6 1 s.calls
  pub position : later.temp.tmppos ≡ s.temp.tmppos + total (dlsym 0)

pub from_fresh :
    (libc : List Request → ℕ) (tmpbuff : Adress) (dlsym : ℕ → List Request) (depth size : ℕ)
    (s : TracerState)
    → s.found ≡ 0
    → s.malloc_initializing ≡ false
    → malloc libc tmpbuff (init libc tmpbuff dlsym depth) size s
      ≡ (do
        init libc tmpbuff dlsym depth
        set_malloc_busy false
        hand_on libc tmpbuff 0 (malloc_of size))
          (state 0 true s.mmap_initializing s.temp s.calls s.bytes)
unfolding malloc
from_fresh libc tmpbuff dlsym depth size s e b = rw (malloc, ==_of_eq s.found 0 e, b, e)

-- The first `malloc` sets all pointers and is handed on to libc, if `dlsym` makes only calls of
-- `malloc` and `calloc` in the first look-up, these leave a byte of the temporary buffer, and each
-- call that `dlsym` makes in a later look-up is no `free` and is one whose pointer is set by then.
pub malloc-Starts :
    (libc : List Request → ℕ) (tmpbuff : Adress) (dlsym : ℕ → List Request) (depth size : ℕ)
    (s : TracerState)
    → 0 < tmpbuff
    → s.found ≡ 0
    → s.malloc_initializing ≡ false
    → AllFresh (dlsym 0)
    → s.temp.tmppos + total (dlsym 0) < tmpbuff_size
    → ((i : ℕ) → 0 < i → i < 7 → AllReady i (dlsym i))
    → Starts libc tmpbuff dlsym (suc depth) size s
unfolding init look_up hand_on
malloc-Starts libc tmpbuff dlsym depth size s p e b f h r =
    let m = s.mmap_initializing in
    let nested = init libc tmpbuff dlsym depth in
    let first = perform_all-Buffered libc tmpbuff p nested (dlsym 0) m s.temp s.calls s.bytes f h in
    let rest =
      look_up-ready libc tmpbuff p nested dlsym 6 1 7 true m first.temp s.calls first.content
        (λ j a c. r j (omega (arith, a)) c) (omega arith) in
    record {
      later = state 7 false m first.temp (malloc_of size ∷ handed dlsym 6 1 s.calls) first.content;
      answers = rw (
        from_fresh libc tmpbuff dlsym (suc depth) size s e b,
        init,
        look_up,
        first.runs,
        rest,
        hand_on,
      );
      found = refl;
      idle = refl;
      called = refl;
      position = first.position;
    }
