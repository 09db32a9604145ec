-- ===== src/Manager/Init/Lifecycle.antt =====
-- From `mem_init` to `mem_deinit`.
use assignment2_c.Prelude.{
  ℕ, ◌+◌, ◌^◌, ◌<◌, ◌≡◌, ◌≢◌, refl, true, false, Option, none, some, [], ◌∷◌, ◌==◌, Bool-cases, inl,
  inr, ==_of_ne, eq_of_==, ne_of_==,
}
use assignment2_c.Manager.{
  Adress, null, MemoryBlock, Manager, ok, fault, read, write, write_size, write_used, write_start,
}
use assignment2_c.Manager.Layout.{block, IsValid}
use assignment2_c.Manager.Init.{mem_init, mem_deinit}
use assignment2_c.Manager.Alloc.{Realloc, mem_alloc}
use assignment2_c.Manager.Free.{mem_free}
use assignment2_c.Manager.Resize.{mem_resize}

-- No pool is in use, and the lock is not initialised.
pub record IsEmpty (s : Manager) : Type 0 where
  pub no_start : s.mem_pool_start ≡ null
  pub no_blocks : s.memory_blocks_size ≡ 0
  pub no_lock : s.lock_ready ≡ false

-- A state between two calls: without a pool there are no blocks and no lock, and with a pool the lock is
-- initialised and not held.
pub record IsSound (s : Manager) : Type 0 where
  pub without_pool : s.mem_pool_start ≡ null → IsEmpty s
  pub with_pool : s.mem_pool_start ≢ null → (s.lock_ready ≡ true) × (s.lock_depth ≡ 0)

-- The state that `mem_init` leaves when both calls of `malloc` succeed.
abbrev pub one_block : Manager → Adress → ℕ → Manager
one_block s temp size = record s {
  mem_pool_start = temp;
  mem_pool_size = size;
  memory_blocks = block temp size false ∷ [];
  memory_blocks_size = 1;
  lock_depth = 0;
  lock_ready = true;
}

module _ (s : Manager) (sound : IsSound s) (temp : Adress) (ne : temp ≢ null) (size : ℕ) where
  started_with :
      (cell : MemoryBlock) → mem_init temp (some cell) size s ≡ ok tt (one_block s temp size)
  unfolding mem_init write_size write_used write_start read write
  started_with cell = elim (Bool-cases (s.mem_pool_start == null)) [
    | inl fresh ↦
        let empty = sound.without_pool (eq_of_== _ _ fresh) in
        rw (fresh, ==_of_ne temp null ne, empty.no_blocks, empty.no_lock)
    | inr again ↦
        let (ready, depth) = sound.with_pool (ne_of_== _ _ again) in
        rw (again, ready, depth, ==_of_ne temp null ne)
  ]

  -- `mem_init` writes to the array without a look at what `malloc` answered: when there is memory for
  -- the pool and none for the array, it writes through `NULL`, from every state between two calls.
  pub mem_init-fault : mem_init temp none size s ≡ fault
  unfolding mem_init write_size read
  mem_init-fault = elim (Bool-cases (s.mem_pool_start == null)) [
    | inl fresh ↦ rw (fresh, ==_of_ne temp null ne)
    | inr again ↦
        let (ready, depth) = sound.with_pool (ne_of_== _ _ again) in
        rw (again, ready, depth, ==_of_ne temp null ne)
  ]

  -- When both calls of `malloc` succeed, `mem_init` returns, between two other calls, from a
  -- state with no pool and from one with a pool that it first removes. A pool of at least one byte that ends in the address space is
  -- then valid, and its one free block fills it; the lock is initialised and not held.
  pub mem_init-IsValid :
      (cell : MemoryBlock)
      → 0 < size
      → temp + size < 2 ^ 64
      → (mem_init temp (some cell) size s ≡ ok tt (one_block s temp size))
        × IsValid (one_block s temp size) (block temp size false ∷ [])
  mem_init-IsValid cell pos small = (
    started_with cell,
    record { started = ne; tiling = (refl, pos, refl); merged = (refl, tt); in_range = small },
  )

-- Every call locks a lock that is not initialised.
pub record IsUnusable (realloc : Realloc) (s : Manager) : Type 0 where
  pub no_alloc : (size : ℕ) → mem_alloc realloc size s ≡ fault
  pub no_free : (p : Adress) → mem_free p s ≡ fault
  pub no_resize : (p : Adress) (size : ℕ) → mem_resize realloc p size s ≡ fault

IsEmpty-IsUnusable : (realloc : Realloc) (s : Manager) → IsEmpty s → IsUnusable realloc s
unfolding mem_alloc mem_free mem_resize
IsEmpty-IsUnusable realloc s empty = record {
  no_alloc = λ size. rw (mem_alloc, empty.no_lock);
  no_free = λ p. rw (mem_free, empty.no_lock);
  no_resize = λ p size. rw (mem_resize, empty.no_lock);
}

abbrev pub emptied : Manager → Manager
emptied s = record s {
  mem_pool_start = null;
  memory_blocks = [];
  memory_blocks_size = 0;
  mem_pool_size = 0;
  lock_ready = false;
}

-- From a state between two calls `mem_deinit` returns, and then there is no pool and the lock is
-- destroyed: every `mem_alloc`, `mem_free` and `mem_resize` uses the destroyed lock, which is
-- undefined, and a second `mem_deinit` does nothing.
pub mem_deinit-IsEmpty :
    (realloc : Realloc) (s : Manager)
    → IsSound s
    → (t : Manager) × (mem_deinit s ≡ ok tt t)
      × IsEmpty t
      × IsUnusable realloc t
      × (mem_deinit t ≡ ok tt t)
unfolding mem_deinit
mem_deinit-IsEmpty realloc s sound = elim (Bool-cases (s.mem_pool_start == null)) [
  | inl none_there ↦
      let empty = sound.without_pool (eq_of_== _ _ none_there) in
      (s, rw none_there, empty, IsEmpty-IsUnusable realloc s empty, rw none_there)
  | inr there ↦
      let (ready, depth) = sound.with_pool (ne_of_== _ _ there) in
      let empty : IsEmpty (emptied s) = record {
        no_start = refl;
        no_blocks = refl;
        no_lock = refl;
      } in
      (
        emptied s,
        rw (there, ready, depth),
        empty,
        IsEmpty-IsUnusable realloc (emptied s) empty,
        refl,
      )
]

-- When `malloc` has no memory for the pool, `mem_init` returns from a state between two calls, and there
-- is no pool, whatever there was before, and no initialised lock: every `mem_alloc`, `mem_free` and
-- `mem_resize` after that uses the lock, which is undefined.
pub mem_init-IsEmpty :
    (realloc : Realloc) (answer : Option MemoryBlock) (n : ℕ) (s : Manager)
    → IsSound s
    → (t : Manager) × (mem_init null answer n s ≡ ok tt t) × IsEmpty t × IsUnusable realloc t
unfolding mem_init
mem_init-IsEmpty realloc answer n s sound = elim (Bool-cases (s.mem_pool_start == null)) [
  | inl fresh ↦
      let before = sound.without_pool (eq_of_== _ _ fresh) in
      let t : Manager = record s { mem_pool_size = n } in
      let empty : IsEmpty t = record {
        no_start = before.no_start;
        no_blocks = before.no_blocks;
        no_lock = before.no_lock;
      } in
      (t, rw fresh, empty, IsEmpty-IsUnusable realloc t empty)
  | inr again ↦
      let (ready, depth) = sound.with_pool (ne_of_== _ _ again) in
      let t : Manager = record (emptied s) { mem_pool_size = n } in
      let empty : IsEmpty t = record { no_start = refl; no_blocks = refl; no_lock = refl } in
      (t, rw (again, ready, depth), empty, IsEmpty-IsUnusable realloc t empty)
]
