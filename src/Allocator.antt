-- ===== src/Allocator.antt =====
-- What linked_list.c uses of memory_manager.c: the operations that it calls, and what they promise.
-- `Pool` shows that the manager keeps these promises.
pub mod Pool
use assignment2_c.Prelude.{ℕ, ◌+◌, ◌^◌, ◌≡◌, ◌≤◌, ◌<◌, ◌⊎◌, Option, none, some, List, [], ◌∷◌}
use assignment2_c.Manager.{Adress, null, int_max}
use assignment2_c.Manager.Layout.Used.{Ranges, Inserted, without}
use assignment2_c.Memory.{Bytes}

-- `none` is a fault. `owned` are the ranges that are handed out. A state is safe while there is a pool,
-- and stopped while there is none. `mem_init` may fail, and then there is none.
pub record Allocator : Type 1 where
  pub State : Type 0
  pub mem_init : ℕ → State → Option State
  pub mem_alloc : ℕ → State → Option (Adress × State)
  pub mem_free : Adress → State → Option State
  pub mem_deinit : State → Option State
  pub bytes : State → Bytes
  pub set_bytes : Bytes → State → State
  pub owned : State → List (Adress × ℕ)
  pub IsSafe : State → Type 0
  pub IsStopped : State → Type 0
  pub owned_ranges :
      (s : State) → IsSafe s → (end : Adress) × (end < 2 ^ 64) × Ranges 1 (owned s) end
  pub init_law :
      (n : ℕ) (s : State)
      → 0 < n
      → n < int_max
      → IsStopped s
      → (t : State) × (mem_init n s ≡ some t) × ((IsSafe t × (owned t ≡ [])) ⊎ IsStopped t)
  pub alloc_law :
      (n : ℕ) (s : State)
      → 0 < n
      → IsSafe s
      → (mem_alloc n s ≡ some (null, s))
        ⊎ ((p : Adress) × (t : State) × (mem_alloc n s ≡ some (p, t))
            × IsSafe t
            × Inserted (p, n) (owned s) (owned t)
            × (bytes t ≡ bytes s))
  pub free_law :
      (p : Adress) (s : State)
      → IsSafe s
      → (t : State) × (mem_free p s ≡ some t)
        × IsSafe t
        × (owned t ≡ without p (owned s))
        × (bytes t ≡ bytes s)
  pub deinit_law :
      (s : State) → IsSafe s → (t : State) × (mem_deinit s ≡ some t) × IsStopped t × (owned t ≡ [])
  pub stopped_law : (s : State) → IsStopped s → ¬ IsSafe s
  pub bytes_set : (m : Bytes) (s : State) → bytes (set_bytes m s) ≡ m
  pub owned_set : (m : Bytes) (s : State) → owned (set_bytes m s) ≡ owned s
  pub set_set : (m m' : Bytes) (s : State) → set_bytes m (set_bytes m' s) ≡ set_bytes m s
  pub set_self : (s : State) → set_bytes (bytes s) s ≡ s
  pub set_IsSafe : (m : Bytes) (s : State) → IsSafe s → IsSafe (set_bytes m s)
