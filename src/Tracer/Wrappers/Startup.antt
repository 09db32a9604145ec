-- ===== src/Tracer/Wrappers/Startup.antt =====
-- The look-ups of `init` and the calls that they make meanwhile, while `malloc` is initializing.
pub mod First
pub mod Missing
use assignment2_c.Prelude.{
  ℕ, zero, suc, ◌+◌, ◌*◌, ◌^◌, ◌≡◌, ◌<◌, ◌≤◌, Bool, true, false, refl, none, some, List, [], ◌∷◌,
  arith, ltb, leb, ◌&&◌, ◌==◌, lt→ltb, ge→ltb, if◌then◌else◌, ==_of_eq,
}
use assignment2_c.Manager.{Adress, null, wrap}
use assignment2_c.Memory.{Bytes}
use assignment2_c.Tracer.{TempBuffer, tmpbuff_size, temp_alloc}
use assignment2_c.Tracer.Temp.{after, temp_alloc-fits}
use assignment2_c.Tracer.Wrappers.{
  Request, malloc_of, free_of, realloc_of, calloc_of, memalign_of, mmap_of, munmap_of, TracerState,
  Cmd, ok, hand_on, malloc, calloc, realloc, mmap, perform, perform_all, look_up,
}

-- The bytes that a request takes of the temporary buffer.
abbrev pub need : Request → ℕ
need (malloc_of size) = size
need (free_of p) = 0
need (realloc_of p size) = size
need (calloc_of nmemb size) = nmemb * size
need r = 0

abbrev pub total : List Request → ℕ
total [] = 0
total (r ∷ rs) = need r + total rs

abbrev pub IsFresh : Request → Type 0
IsFresh (malloc_of size) = Unit
IsFresh (free_of p) = ⊥
IsFresh (realloc_of p size) = ⊥
IsFresh (calloc_of nmemb size) = Unit
IsFresh r = ⊥

abbrev pub AllFresh : List Request → Type 0
AllFresh [] = Unit {0}
AllFresh (r ∷ rs) = IsFresh r × AllFresh rs

-- The pointer for the call is among the first `i`, and the call is no `free`.
abbrev pub IsReady : ℕ → Request → Type 0
IsReady i (malloc_of size) = 0 < i
IsReady i (free_of p) = ⊥
IsReady i (realloc_of p size) = 3 < i
IsReady i (calloc_of nmemb size) = 2 < i
IsReady i (memalign_of blocksize size) = 4 < i
IsReady i (mmap_of ptr length prot flags fd offset) = 5 < i
IsReady i (munmap_of ptr length) = 6 < i

abbrev pub AllReady : ℕ → List Request → Type 0
AllReady i [] = Unit {0}
AllReady i (r ∷ rs) = IsReady i r × AllReady i rs

abbrev pub buffered : ℕ → TempBuffer → TempBuffer
buffered n t = after n t

wrap_small : (n : ℕ) → n < 2 ^ 64 → wrap n ≡ n
wrap_small n h = omega arith

abbrev pub cleared : Request → Adress → Bytes → Bytes
cleared (malloc_of size) p bytes = bytes
cleared (free_of q) p bytes = bytes
cleared (realloc_of q size) p bytes = bytes
cleared (calloc_of nmemb size) p bytes =
    λ a. if leb p a && ltb a (p + nmemb * size) then 0 else bytes a
cleared r p bytes = bytes

abbrev pub state : ℕ → Bool → Bool → TempBuffer → List Request → Bytes → TracerState
state n b m t cs bytes = record {
  found = n;
  malloc_initializing = b;
  mmap_initializing = m;
  temp = t;
  calls = cs;
  bytes = bytes;
}

pub positive-ne : (n : ℕ) → 0 < n → (n == 0) ≡ false
positive-ne n h = ground arith

gt→leb : (n : ℕ) → 5 < n → leb n 5 ≡ false
gt→leb n h = ground arith

-- The calls of libc after those of a look-up, and after those of the `k` look-ups from number `i` on.
abbrev pub push : List Request → List Request → List Request
push [] cs = cs
push (r ∷ rs) cs = push rs (r ∷ cs)

abbrev pub handed : (ℕ → List Request) → ℕ → ℕ → List Request → List Request
handed dlsym zero i cs = cs
handed dlsym (suc k) i cs = handed dlsym k (i + 1) (push (dlsym i) cs)

module _ (libc : List Request → ℕ) (tmpbuff : Adress) (present : 0 < tmpbuff)
    (init : Cmd (Unit {0})) where
  malloc-fits :
      (m : Bool) (t : TempBuffer) (cs : List Request) (bytes : Bytes) (size : ℕ)
      → t.tmppos + size < tmpbuff_size
      → malloc libc tmpbuff init size (state 0 true m t cs bytes)
        ≡ ok (tmpbuff + t.tmppos) (state 0 true m (after size t) cs bytes)
  unfolding malloc
  malloc-fits m t cs bytes size h = rw (malloc, temp_alloc-fits tmpbuff size t h)

  perform-fits :
      (m : Bool) (t : TempBuffer) (cs : List Request) (bytes : Bytes) (r : Request)
      → IsFresh r
      → t.tmppos + need r < tmpbuff_size
      → perform libc tmpbuff init r (state 0 true m t cs bytes)
        ≡ ok tt (state 0 true m (after (need r) t) cs (cleared r (tmpbuff + t.tmppos) bytes))
  unfolding perform calloc
  perform-fits m t cs bytes (malloc_of size) f h = rw (perform, malloc-fits m t cs bytes size h)
  perform-fits m t cs bytes (calloc_of nmemb size) f h =
      let w = wrap_small (nmemb * size) (omega (arith, h)) in
      rw (
        perform,
        calloc,
        w,
        malloc-fits m t cs bytes (nmemb * size) h,
        positive-ne (tmpbuff + t.tmppos) (omega (arith, present)),
      )
  perform-fits m t cs bytes (free_of p) f h = absurd f
  perform-fits m t cs bytes (realloc_of p size) f h = absurd f
  perform-fits m t cs bytes (memalign_of blocksize size) f h = absurd f
  perform-fits m t cs bytes (mmap_of ptr length prot flags fd offset) f h = absurd f
  perform-fits m t cs bytes (munmap_of ptr length) f h = absurd f

  pub perform-ready :
      (s : TracerState) (r : Request)
      → IsReady s.found r
      → perform libc tmpbuff init r s ≡ ok tt (record s { calls = r ∷ s.calls })
  unfolding perform calloc realloc malloc mmap hand_on
  perform-ready s (malloc_of size) h =
      rw (perform, malloc, positive-ne s.found h, hand_on, lt→ltb 0 s.found h)
  perform-ready s (free_of p) h = absurd h
  perform-ready s (realloc_of p size) h =
      rw (perform, realloc, positive-ne s.found (omega (arith, h)), hand_on, lt→ltb 3 s.found h)
  perform-ready s (calloc_of nmemb size) h =
      rw (perform, calloc, positive-ne s.found (omega (arith, h)), hand_on, lt→ltb 2 s.found h)
  perform-ready s (memalign_of blocksize size) h = rw (perform, hand_on, lt→ltb 4 s.found h)
  perform-ready s (mmap_of ptr length prot flags fd offset) h =
      rw (perform, mmap, gt→leb s.found h, hand_on, lt→ltb 5 s.found h)
  perform-ready s (munmap_of ptr length) h = rw (perform, hand_on, lt→ltb 6 s.found h)

  perform_all-ready :
      (rs : List Request) (s : TracerState)
      → AllReady s.found rs
      → perform_all libc tmpbuff init rs s ≡ ok tt (record s { calls = push rs s.calls })
  unfolding perform_all
  perform_all-ready [] s h = refl
  perform_all-ready (r ∷ rs) s h = rw (
    perform_all,
    perform-ready s r h.0,
    perform_all-ready rs (record s { calls = r ∷ s.calls }) h.1,
  )

  pub look_up-ready :
      (dlsym : ℕ → List Request) (k i n : ℕ) (b m : Bool) (t : TempBuffer) (cs : List Request)
      (bytes : Bytes)
      → ((j : ℕ) → i ≤ j → j < n → AllReady j (dlsym j))
      → n ≡ i + k
      → look_up libc tmpbuff init dlsym k i (state i b m t cs bytes)
        ≡ ok tt (state n b m t (handed dlsym k i cs) bytes)
  unfolding look_up
  look_up-ready dlsym zero i n b m t cs bytes h e = let e' : n ≡ i = omega (arith, e) in rw (e')
  look_up-ready dlsym (suc k) i n b m t cs bytes h e = rw (
    look_up,
    perform_all-ready (dlsym i) (state i b m t cs bytes) (h i (omega arith) (omega (arith, e))),
    ge→ltb i i (omega arith),
    look_up-ready dlsym k (i + 1) n b m t (push (dlsym i) cs) bytes
        (λ j a c. h j (omega (arith, a)) c) (omega (arith, e)),
  )

  -- The calls of the first look-up, which the temporary buffer answers.
  pub record Buffered (rs : List Request) (m : Bool) (t : TempBuffer) (cs : List Request)
      (bytes : Bytes) : Type 0 where
    pub temp : TempBuffer
    pub content : Bytes
    pub runs :
        perform_all libc tmpbuff init rs (state 0 true m t cs bytes)
        ≡ ok tt (state 0 true m temp cs content)
    pub position : temp.tmppos ≡ t.tmppos + total rs

  pub perform_all-Buffered :
      (rs : List Request) (m : Bool) (t : TempBuffer) (cs : List Request) (bytes : Bytes)
      → AllFresh rs
      → t.tmppos + total rs < tmpbuff_size
      → Buffered rs m t cs bytes
  unfolding perform_all
  perform_all-Buffered [] m t cs bytes f h = record {
    temp = t;
    content = bytes;
    runs = refl;
    position = omega arith;
  }
  perform_all-Buffered (r ∷ rs) m t cs bytes f h =
      let u = after (need r) t in
      let content = cleared r (tmpbuff + t.tmppos) bytes in
      let rest = perform_all-Buffered rs m u cs content f.1 (omega (arith, h)) in
      record {
        temp = rest.temp;
        content = rest.content;
        runs = rw (perform_all, perform-fits m t cs bytes r f.0 (omega (arith, h)), rest.runs);
        position = omega (arith, rest.position);
      }
