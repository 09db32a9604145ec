-- ===== src/Tracer/Wrappers/Program.antt =====
-- A whole run of a program: its first `malloc`, and the calls after that.
use assignment2_c.Prelude.{
  ℕ, suc, ◌+◌, ◌≡◌, ◌<◌, Bool, true, false, refl, List, [], ◌∷◌, arith, lt→ltb, Bool-cases, inl,
  inr, not, leb, ◌&&◌, if◌then◌else◌,
}
use assignment2_c.Manager.{Adress}
use assignment2_c.Tracer.{tmpbuff_size, is_temp}
use assignment2_c.Tracer.Wrappers.{
  Request, malloc_of, free_of, realloc_of, calloc_of, memalign_of, mmap_of, munmap_of, TracerState,
  Cmd, ok, hand_on, free, perform, perform_all, init,
}
use assignment2_c.Tracer.Wrappers.Startup.{total, AllFresh, AllReady, handed, perform-ready}
use assignment2_c.Tracer.Wrappers.Startup.First.{malloc-Starts}

-- A `free` of an address from `from` to `to` is not for libc.
unfoldable pub is_for_libc : Adress → Adress → Request → Bool
is_for_libc from to (free_of p) = not (leb from p && leb p to)
is_for_libc from to r = true

-- The calls of libc, the last first, after `calls` and the requests of a program.
unfoldable pub seen : Adress → Adress → List Request → List Request → List Request
seen from to [] calls = calls
seen from to (r ∷ rs) calls = seen from to rs (if is_for_libc from to r then r ∷ calls else calls)

module _ (libc : List Request → ℕ) (tmpbuff : Adress) (present : 0 < tmpbuff)
    (nested : Cmd (Unit {0})) where
  -- What a request adds to the calls of libc when all pointers are set.
  abbrev after_one : TracerState → Request → TracerState
  after_one s r = record s {
    calls = if is_for_libc tmpbuff (tmpbuff + s.temp.tmppos) r then r ∷ s.calls else s.calls;
  }

  perform-free :
      (s : TracerState) (p : Adress)
      → 6 < s.found
      → perform libc tmpbuff nested (free_of p) s ≡ ok tt (after_one s (free_of p))
  unfolding perform free is_temp hand_on is_for_libc
  perform-free s p h = elim (Bool-cases (leb tmpbuff p && leb p (tmpbuff + s.temp.tmppos))) [
    | inl t ↦ rw (perform, free, is_temp, t)
    | inr t ↦ rw (perform, free, is_temp, t, hand_on, lt→ltb 1 s.found (omega (arith, h)))
  ]

  perform-after_one :
      (s : TracerState) (r : Request)
      → 6 < s.found
      → perform libc tmpbuff nested r s ≡ ok tt (after_one s r)
  unfolding is_for_libc
  perform-after_one s (free_of p) h = perform-free s p h
  perform-after_one s (malloc_of size) h =
      perform-ready libc tmpbuff present nested s (malloc_of size) (omega (arith, h))
  perform-after_one s (realloc_of p size) h =
      perform-ready libc tmpbuff present nested s (realloc_of p size) (omega (arith, h))
  perform-after_one s (calloc_of nmemb size) h =
      perform-ready libc tmpbuff present nested s (calloc_of nmemb size) (omega (arith, h))
  perform-after_one s (memalign_of blocksize size) h =
      perform-ready libc tmpbuff present nested s (memalign_of blocksize size) (omega (arith, h))
  perform-after_one s (mmap_of p length prot flags fd offset) h =
      perform-ready libc tmpbuff present nested s (mmap_of p length prot flags fd offset)
        (omega (arith, h))
  perform-after_one s (munmap_of p length) h =
      perform-ready libc tmpbuff present nested s (munmap_of p length) (omega (arith, h))

  perform_all-seen :
      (rs : List Request) (s : TracerState)
      → 6 < s.found
      → perform_all libc tmpbuff nested rs s
        ≡ ok tt (record s { calls = seen tmpbuff (tmpbuff + s.temp.tmppos) rs s.calls })
  unfolding perform_all seen
  perform_all-seen [] s h = refl
  perform_all-seen (r ∷ rs) s h =
      rw (perform_all, perform-after_one s r h) (perform_all-seen rs (after_one s r) h)

-- libc has seen the calls of the look-ups, the first `malloc`, and then the program's own calls, without
-- the releases of what the temporary buffer has handed out, which it keeps.
pub record IsForwarded (libc : List Request → ℕ) (tmpbuff : Adress) (dlsym : ℕ → List Request)
    (depth size : ℕ) (rs : List Request) (s : TracerState) : Type 0 where
  pub later : TracerState
  pub returns :
      perform_all libc tmpbuff (init libc tmpbuff dlsym depth) (malloc_of size ∷ rs) s ≡ ok tt later
  pub called :
      later.calls
      ≡ seen tmpbuff
          (tmpbuff + (s.temp.tmppos + total (dlsym 0)))
          rs
          (malloc_of size ∷ handed dlsym 6 1 s.calls)
  pub position : later.temp.tmppos ≡ s.temp.tmppos + total (dlsym 0)

-- A program that begins with `malloc` and goes on with any calls of the seven functions runs through, if
-- `dlsym` makes only calls of `malloc` and `calloc` in the first look-up, these leave a byte of the
-- temporary buffer, and each call that `dlsym` makes in a later look-up is no `free` and is one whose
-- pointer is set by then. libc sees the calls that the look-ups hand on,
-- then the program's calls, each once, in order and with its arguments, except every `free` of an
-- address between the start of the temporary buffer and its position after the look-ups.
pub program-IsForwarded :
    (libc : List Request → ℕ) (tmpbuff : Adress) (dlsym : ℕ → List Request) (depth size : ℕ)
    (rs : List Request) (s : TracerState)
    → 0 < tmpbuff
    → s.found ≡ 0
    → s.malloc_initializing ≡ false
    → AllFresh (dlsym 0)
    → s.temp.tmppos + total (dlsym 0) < tmpbuff_size
    → ((i : ℕ) → 0 < i → i < 7 → AllReady i (dlsym i))
    → IsForwarded libc tmpbuff dlsym (suc depth) size rs s
unfolding perform_all perform
program-IsForwarded libc tmpbuff dlsym depth size rs s p e b f h ready =
    let first = malloc-Starts libc tmpbuff dlsym depth size s p e b f h ready in
    let nested = init libc tmpbuff dlsym (suc depth) in
    let t = first.later in
    let rest = perform_all-seen libc tmpbuff p nested rs t (omega (arith, first.found)) in
    record {
      later = record t { calls = seen tmpbuff (tmpbuff + t.temp.tmppos) rs t.calls };
      returns = rw (perform_all, perform, first.answers, rest);
      called = rw (first.position, first.called);
      position = first.position;
    }
