-- ===== src/Tracer/Wrappers/Startup/Missing.antt =====
-- A look-up that calls an allocation function before `init` has set its pointer.
use assignment2_c.Prelude.{
  ℕ, zero, suc, ◌+◌, ◌-◌, ◌≡◌, ◌<◌, ◌≤◌, Bool, true, false, List, ◌∷◌, arith, ge→ltb,
}
use assignment2_c.Manager.{Adress}
use assignment2_c.Memory.{Bytes}
use assignment2_c.Tracer.{TempBuffer, tmpbuff_size}
use assignment2_c.Tracer.Wrappers.{
  Request, malloc_of, free_of, realloc_of, calloc_of, memalign_of, mmap_of, munmap_of, TracerState,
  Cmd, crash, hand_on, calloc, realloc, perform, perform_all, look_up, init, malloc,
}
use assignment2_c.Tracer.Wrappers.Startup.{
  total, AllFresh, AllReady, state, push, perform_all-ready, perform_all-Buffered, positive-ne,
}
use assignment2_c.Tracer.Wrappers.Startup.First.{from_fresh}

-- `myfn_malloc` is set and the pointer for the call is not.
abbrev pub IsMissing : ℕ → Request → Type 0
IsMissing i (malloc_of size) = ⊥
IsMissing i (free_of p) = ⊥
IsMissing i (realloc_of p size) = (0 < i) × (i ≤ 3)
IsMissing i (calloc_of nmemb size) = (0 < i) × (i ≤ 2)
IsMissing i (memalign_of blocksize size) = (0 < i) × (i ≤ 4)
IsMissing i (mmap_of ptr length prot flags fd offset) = ⊥
IsMissing i (munmap_of ptr length) = (0 < i) × (i ≤ 6)

missing_positive : (i : ℕ) (r : Request) → IsMissing i r → 0 < i
missing_positive i (malloc_of size) h = absurd h
missing_positive i (free_of p) h = absurd h
missing_positive i (realloc_of p size) h = h.0
missing_positive i (calloc_of nmemb size) h = h.0
missing_positive i (memalign_of blocksize size) h = h.0
missing_positive i (mmap_of ptr length prot flags fd offset) h = absurd h
missing_positive i (munmap_of ptr length) h = h.0

module _ (libc : List Request → ℕ) (tmpbuff : Adress) (present : 0 < tmpbuff)
    (init : Cmd (Unit {0})) where
  perform-missing :
      (s : TracerState) (r : Request) → IsMissing s.found r → perform libc tmpbuff init r s ≡ crash
  unfolding perform calloc realloc hand_on
  perform-missing s (malloc_of size) h = absurd h
  perform-missing s (free_of p) h = absurd h
  perform-missing s (mmap_of ptr length prot flags fd offset) h = absurd h
  perform-missing s (realloc_of p size) h =
      rw (perform, realloc, positive-ne s.found h.0, hand_on, ge→ltb 3 s.found h.1)
  perform-missing s (calloc_of nmemb size) h =
      rw (perform, calloc, positive-ne s.found h.0, hand_on, ge→ltb 2 s.found h.1)
  perform-missing s (memalign_of blocksize size) h = rw (perform, hand_on, ge→ltb 4 s.found h.1)
  perform-missing s (munmap_of ptr length) h = rw (perform, hand_on, ge→ltb 6 s.found h.1)

  pub look_up-missing :
      (dlsym : ℕ → List Request) (k d i : ℕ) (r : Request) (rs : List Request) (b m : Bool)
      (t : TempBuffer) (cs : List Request) (bytes : Bytes)
      → d < k
      → dlsym (i + d) ≡ r ∷ rs
      → IsMissing (i + d) r
      → ((j : ℕ) → i ≤ j → j < i + d → AllReady j (dlsym j))
      → look_up libc tmpbuff init dlsym k i (state i b m t cs bytes) ≡ crash
  unfolding look_up perform_all
  look_up-missing dlsym zero d i r rs b m t cs bytes l e g h = absurd (omega (arith, l))
  look_up-missing dlsym (suc k) zero i r rs b m t cs bytes l e g h =
      let z : i + 0 ≡ i = omega arith in
      rw (look_up, rw z at e, perform_all, perform-missing (state i b m t cs bytes) r (rw z at g))
  look_up-missing dlsym (suc k) (suc d) i r rs b m t cs bytes l e g h =
      let z : i + suc d ≡ i + 1 + d = omega arith in
      rw (
        look_up,
        perform_all-ready libc tmpbuff present init (dlsym i) (state i b m t cs bytes)
            (h i (omega arith) (omega arith)),
        ge→ltb i i (omega arith),
        look_up-missing dlsym k d (i + 1) r rs b m t (push (dlsym i) cs) bytes (omega (arith, l))
            (rw z at e) (rw z at g) (λ j a c. h j (omega (arith, a)) (omega (arith, c))),
      )

-- When the first look-ups of the first `malloc` make only calls that can be answered, and the next one
-- begins with a `realloc`, `calloc`, `memalign` or `munmap` whose pointer is not set yet, then the
-- program crashes, since `myfn_malloc` is set by then and the temporary buffer no longer serves.
pub malloc-missing :
    (libc : List Request → ℕ) (tmpbuff : Adress) (dlsym : ℕ → List Request) (depth size i : ℕ)
    (r : Request) (rs : List Request) (s : TracerState)
    → 0 < tmpbuff
    → s.found ≡ 0
    → s.malloc_initializing ≡ false
    → AllFresh (dlsym 0)
    → s.temp.tmppos + total (dlsym 0) < tmpbuff_size
    → ((j : ℕ) → 0 < j → j < i → AllReady j (dlsym j))
    → i < 7
    → dlsym i ≡ r ∷ rs
    → IsMissing i r
    → malloc libc tmpbuff (init libc tmpbuff dlsym (suc depth)) size s ≡ crash
unfolding init look_up
malloc-missing libc tmpbuff dlsym depth size i r rs s p e b f h ready l q g =
    let m = s.mmap_initializing in
    let nested = init libc tmpbuff dlsym depth in
    let first = perform_all-Buffered libc tmpbuff p nested (dlsym 0) m s.temp s.calls s.bytes f h in
    let z : 1 + (i - 1) ≡ i = omega (arith, missing_positive i r g) in
    let rest =
      look_up-missing libc tmpbuff p nested dlsym 6 (i - 1) 1 r rs true m first.temp s.calls
        first.content (omega (arith, l)) (rw (z, q)) (rw (z) g)
        (λ j a c. ready j (omega (arith, a)) (omega (arith, c, z))) in
    rw (from_fresh libc tmpbuff dlsym (suc depth) size s e b, init, look_up, first.runs, rest)
