-- ===== src/Tracer/Wrappers/Depth/Nested.antt =====
-- The calls during an `init`, in which another one may run, and the depth that is enough.
use assignment2_c.Prelude.{
  ℕ, zero, suc, ◌+◌, ◌*◌, ◌≡◌, ◌<◌, ◌≤◌, ◌==◌, Bool, true, false, refl, List, [], ◌∷◌, arith, ltb,
  leb, if◌then◌else◌, ℤ, Bool-cases, ap, inl, inr, not, ◌&&◌,
}
use assignment2_c.Manager.{Adress, null, wrap}
use assignment2_c.Tracer.{temp_alloc}
use assignment2_c.Tracer.Wrappers.{
  Request, malloc_of, free_of, realloc_of, calloc_of, memalign_of, mmap_of, munmap_of, TracerState,
  Cmd, pure, move, clear, ◌>>◌, free, malloc, calloc, realloc, mmap, perform, perform_all, look_up,
  init,
}
use assignment2_c.Tracer.Wrappers.Depth.{
  Leaves, Restores, idle, idle_count, Leaves-and_then, relabel, Leaves-returns, hand_on-Leaves,
  from_temp-Restores, free-Restores,
}

module _ (libc : List Request → ℕ) (tmpbuff : Adress) where
  module _ (init : Cmd (Unit {0})) (n : ℕ)
      (enough : (s : TracerState) → idle_count s < n → Restores init s) where
    malloc-Restores :
        (size : ℕ) (s : TracerState) → idle_count s ≤ n → Restores (malloc libc tmpbuff init size) s
    unfolding malloc
    malloc-Restores size s h = elim (Bool-cases (s.found == 0)) [
      | inr t ↦ rw (malloc, t) (hand_on-Leaves libc tmpbuff 0 (malloc_of size) _ _ s refl refl)
      | inl t ↦ elim (Bool-cases s.malloc_initializing) [
        | inl b ↦
            rw (malloc, t, b)
              (rw b at (from_temp-Restores libc tmpbuff s (temp_alloc tmpbuff size s.temp)))
        | inr b ↦
            let s1 : TracerState = record s { malloc_initializing = true } in
            rw (malloc, t, b)
              (Leaves-and_then true s.mmap_initializing false s.mmap_initializing (init s1) _
                (enough s1 (omega (arith, h, ap idle b)))
                (λ x u e f. hand_on-Leaves libc tmpbuff 0 (malloc_of size) _ _ _ refl f))
      ]
    ]

    mmap-Restores :
        (ptr : Adress) (length : ℕ) (prot flags fd offset : ℤ) (s : TracerState)
        → idle_count s ≤ n
        → Restores (mmap libc tmpbuff init ptr length prot flags fd offset) s
    unfolding mmap
    mmap-Restores ptr length prot flags fd offset s h =
        let r = mmap_of ptr length prot flags fd offset in
        elim (Bool-cases (leb s.found 5)) [
          | inr t ↦ rw (mmap, t) (hand_on-Leaves libc tmpbuff 5 r _ _ s refl refl)
          | inl t ↦ elim (Bool-cases s.mmap_initializing) [
            | inl b ↦
                rw (mmap, t, b)
                  (rw b at (from_temp-Restores libc tmpbuff s (temp_alloc tmpbuff length s.temp)))
            | inr b ↦
                let s1 : TracerState = record s { mmap_initializing = true } in
                rw (mmap, t, b)
                  (Leaves-and_then s.malloc_initializing true s.malloc_initializing false (init s1)
                    _ (enough s1 (omega (arith, h, ap idle b)))
                    (λ x u e f. hand_on-Leaves libc tmpbuff 5 r _ _ _ e refl))
          ]
        ]

    -- What `realloc` and `calloc` do with the memory that `malloc` has given them.
    then_move :
        (ptr nptr : Adress) (size : ℕ) (s : TracerState)
        → Restores
            (if not (nptr == null) && not (ptr == null)
              then (do move nptr ptr size; free libc tmpbuff ptr)
              else pure tt)
            s
    then_move ptr nptr size s = elim (Bool-cases (not (nptr == null) && not (ptr == null))) [
      | inl t ↦ rw (t) (free-Restores libc tmpbuff ptr _)
      | inr t ↦ rw (t) (refl, refl)
    ]

    then_clear :
        (ptr : Adress) (size : ℕ) (s : TracerState)
        → Restores (if ptr == null then pure tt else clear ptr size) s
    then_clear ptr size s = elim (Bool-cases (ptr == null)) [
      | inl t ↦ rw (t) (refl, refl)
      | inr t ↦ rw (t) (refl, refl)
    ]

    realloc-Restores :
        (ptr : Adress) (size : ℕ) (s : TracerState)
        → idle_count s ≤ n
        → Restores (realloc libc tmpbuff init ptr size) s
    unfolding realloc
    realloc-Restores ptr size s h = elim (Bool-cases (s.found == 0)) [
      | inr t ↦
          rw (realloc, t) (hand_on-Leaves libc tmpbuff 3 (realloc_of ptr size) _ _ s refl refl)
      | inl t ↦
          rw (realloc, t)
            (Leaves-and_then _ _ _ _ (malloc libc tmpbuff init size s) _ (malloc-Restores size s h)
              (λ nptr u e f.
                Leaves-returns _ _ _ nptr (relabel _ _ _ _ _ e f (then_move ptr nptr size u))))
    ]

    calloc-Restores :
        (nmemb size : ℕ) (s : TracerState)
        → idle_count s ≤ n
        → Restores (calloc libc tmpbuff init nmemb size) s
    unfolding calloc
    calloc-Restores nmemb size s h = elim (Bool-cases (s.found == 0)) [
      | inr t ↦
          rw (calloc, t) (hand_on-Leaves libc tmpbuff 2 (calloc_of nmemb size) _ _ s refl refl)
      | inl t ↦
          rw (calloc, t)
            (Leaves-and_then _ _ _ _ (malloc libc tmpbuff init (wrap (nmemb * size)) s) _
              (malloc-Restores (wrap (nmemb * size)) s h)
              (λ ptr u e f.
                Leaves-returns _ _ _ ptr
                  (relabel _ _ _ _ _ e f (then_clear ptr (wrap (nmemb * size)) u))))
    ]

    perform-Restores :
        (r : Request) (s : TracerState)
        → idle_count s ≤ n
        → Restores (perform libc tmpbuff init r) s
    unfolding perform
    perform-Restores (malloc_of size) s h = Leaves-returns _ _ _ tt (malloc-Restores size s h)
    perform-Restores (free_of p) s h = free-Restores libc tmpbuff p s
    perform-Restores (realloc_of p size) s h = Leaves-returns _ _ _ tt (realloc-Restores p size s h)
    perform-Restores (calloc_of nmemb size) s h =
        Leaves-returns _ _ _ tt (calloc-Restores nmemb size s h)
    perform-Restores (memalign_of blocksize size) s h =
        Leaves-returns _ _ _ tt
          (hand_on-Leaves libc tmpbuff 4 (memalign_of blocksize size) _ _ s refl refl)
    perform-Restores (mmap_of ptr length prot flags fd offset) s h =
        Leaves-returns _ _ _ tt (mmap-Restores ptr length prot flags fd offset s h)
    perform-Restores (munmap_of ptr length) s h =
        Leaves-returns _ _ _ tt
          (hand_on-Leaves libc tmpbuff 6 (munmap_of ptr length) _ _ s refl refl)

    -- A command that restores the two, behind a run that has left them as they were.
    follows :
        {A : Type 0} (c : Cmd A)
        → ((s : TracerState) → idle_count s ≤ n → Restores c s)
        → (b m : Bool) (s : TracerState) → idle b + idle m ≤ n
        → s.malloc_initializing ≡ b
        → s.mmap_initializing ≡ m
        → Leaves b m (c s)
    follows c k b m s h e f =
        relabel _ _ b m (c s) e f (k s (omega (arith, h, ap idle e, ap idle f)))

    perform_all-Restores :
        (rs : List Request) (s : TracerState)
        → idle_count s ≤ n
        → Restores (perform_all libc tmpbuff init rs) s
    unfolding perform_all
    perform_all-Restores [] s h = (refl, refl)
    perform_all-Restores (r ∷ rs) s h =
        Leaves-and_then _ _ _ _ (perform libc tmpbuff init r s) _ (perform-Restores r s h)
          (λ x u e f.
            follows (perform_all libc tmpbuff init rs) (perform_all-Restores rs) _ _ u h e f)

    look_up-Restores :
        (dlsym : ℕ → List Request) (k i : ℕ) (s : TracerState)
        → idle_count s ≤ n
        → Restores (look_up libc tmpbuff init dlsym k i) s
    unfolding look_up
    look_up-Restores dlsym zero i s h = (refl, refl)
    look_up-Restores dlsym (suc k) i s h =
        Leaves-and_then _ _ _ _ (perform_all libc tmpbuff init (dlsym i) s) _
          (perform_all-Restores (dlsym i) s h)
          (λ x u e f.
            follows (look_up libc tmpbuff init dlsym k (i + 1)) (look_up-Restores dlsym k (i + 1)) _
              _ (record u { found = if ltb i u.found then u.found else i + 1 }) h e f)

  init-Restores :
      (dlsym : ℕ → List Request) (depth : ℕ) (s : TracerState)
      → idle_count s < depth
      → Restores (init libc tmpbuff dlsym depth) s
  unfolding init
  init-Restores dlsym zero s h = absurd (omega (arith, h))
  init-Restores dlsym (suc depth) s h =
      look_up-Restores (init libc tmpbuff dlsym depth) depth (init-Restores dlsym depth) dlsym 7 0 s
        (omega (arith, h))

idle-le : (b : Bool) → idle b ≤ 1
idle-le true = omega arith
idle-le false = omega arith

-- Whatever calls `dlsym` makes, at most two `init` run one inside the other, and a call that returns
-- leaves the `initializing` of `malloc` and that of `mmap` as it found them.
pub perform_two-Restores :
    (libc : List Request → ℕ) (tmpbuff : Adress) (dlsym : ℕ → List Request) (r : Request)
    (s : TracerState)
    → Restores (perform libc tmpbuff (init libc tmpbuff dlsym 2) r) s
perform_two-Restores libc tmpbuff dlsym r s =
    perform-Restores libc tmpbuff (init libc tmpbuff dlsym 2) 2 (init-Restores libc tmpbuff dlsym 2)
      r s (omega (arith, idle-le s.malloc_initializing, idle-le s.mmap_initializing))
