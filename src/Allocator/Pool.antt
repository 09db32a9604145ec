-- ===== src/Allocator/Pool.antt =====
-- The manager of memory_manager.c as the allocator of linked_list.c, while `realloc` has memory, and
-- `malloc` has some for the array of blocks.
use assignment2_c.Prelude.{
  ℕ, zero, suc, ◌+◌, ◌^◌, ◌≡◌, ◌≢◌, ◌≤◌, ◌<◌, ◌⊎◌, refl, Option, none, some, List, [], arith, inl,
  inr, ap, sym, ◌∙◌, ◌==◌, Bool-cases, eq_of_==, ne_of_==,
}
use assignment2_c.Manager.{
  Adress, null, MemoryBlock, BlockTable, Manager, Run, ok, fault, holding, int_max,
}
use assignment2_c.Manager.Layout.Used.{used, used-Ranges, weaken, Ranges, Inserted, without}
use assignment2_c.Manager.Alloc.{Realloc}
use assignment2_c.Manager.Alloc.Take.{HasRoom}
use assignment2_c.Manager.Alloc.HandOut.{mem_alloc-HandsOut}
use assignment2_c.Manager.Free.TakeBack.{mem_free-TakesBack}
use assignment2_c.Manager.Init.Lifecycle.{
  IsEmpty, IsSound, mem_init-IsEmpty, one_block, mem_init-IsValid, mem_deinit-IsEmpty,
}
use assignment2_c.Manager.History.{live}
use assignment2_c.Manager.Resize.Replace.{IsValid-same}
use assignment2_c.Manager.History.Safety.{IsSafe, few, safe, with_bytes, take-append}
use assignment2_c.Manager.Alloc
use assignment2_c.Manager.Free
use assignment2_c.Manager.Init
use assignment2_c.Memory.{Bytes}
use assignment2_c.Allocator.{Allocator}

one_le : (n : ℕ) → n ≢ 0 → 1 ≤ n
one_le zero h = absurd (h refl)
one_le (suc n) h = omega arith

abbrev pub to_option : {A : Type 0} → Run A → Option (A × Manager)
to_option (ok a t) = some (a, t)
to_option fault = none

abbrev pub state_only : Run (Unit {0}) → Option Manager
state_only (ok a t) = some t
state_only fault = none

abbrev pub IsPool : Manager → Type 0
IsPool s = (n : ℕ) × (n < int_max) × IsSafe n s

abbrev pub owned : Manager → List (Adress × ℕ)
owned s = used (live s)

pub owned-Ranges :
    (s : Manager) → IsPool s → (end : Adress) × (end < 2 ^ 64) × Ranges 1 (owned s) end
owned-Ranges s (n, small, i) =
    let v = i.valid in
    let pos : 1 ≤ s.mem_pool_start = one_le s.mem_pool_start v.started in
    (
      s.mem_pool_start + s.mem_pool_size,
      v.in_range,
      weaken (owned s) 1 s.mem_pool_start _ pos (used-Ranges (live s) _ _ v.tiling),
    )

owned-holding : (s : Manager) (xs junk : BlockTable) → owned (holding s xs junk) ≡ used xs
owned-holding s xs junk = rw (take-append xs junk)

module _ (realloc : Realloc) (room : HasRoom realloc) where
  pub alloc_promise :
      (n : ℕ) (s : Manager)
      → 0 < n
      → IsPool s
      → (to_option (Alloc.mem_alloc realloc n s) ≡ some (null, s))
        ⊎ ((p : Adress) × (t : Manager) × (to_option (Alloc.mem_alloc realloc n s) ≡ some (p, t))
            × IsPool t
            × Inserted (p, n) (owned s) (owned t)
            × (t.bytes ≡ s.bytes))
  alloc_promise n s pos (m, small, i) =
      let xs = live s in
      let e = ap (Alloc.mem_alloc realloc n) i.shape in
      elim (mem_alloc-HandsOut realloc n s xs i.junk room pos
        (few realloc m room small s xs i.valid i.size_kept) i.valid) [
          | inl (f, none_fits) ↦ inl (ap to_option (e ∙ f ∙ ap (ok null) (sym i.shape)))
          | inr h ↦ inr (
            h.adress,
            holding s h.blocks h.junk,
            ap to_option (e ∙ h.returns),
            (m, small, safe m s h.blocks h.junk s.bytes h.valid i.size_kept i.lock_free),
            rw (owned-holding s h.blocks h.junk) h.inserted,
            refl,
          )
        ]

pub free_promise :
    (p : Adress) (s : Manager)
    → IsPool s
    → (t : Manager) × (state_only (Free.mem_free p s) ≡ some t)
      × IsPool t
      × (owned t ≡ without p (owned s))
      × (t.bytes ≡ s.bytes)
free_promise p s (m, small, i) =
    let h = mem_free-TakesBack s (live s) i.junk p i.valid in
    (
      holding s h.blocks h.junk,
      ap state_only (ap (Free.mem_free p) i.shape ∙ h.returns),
      (m, small, safe m s h.blocks h.junk s.bytes h.valid i.size_kept i.lock_free),
      owned-holding s h.blocks h.junk ∙ h.taken,
      refl,
    )

-- What `malloc` answers ends in the address space.
abbrev pub InSpace : (ℕ → Adress) → Type 0
InSpace malloc = (n : ℕ) → 0 < n → n < int_max → malloc n + n < 2 ^ 64

pub IsEmpty-IsSound : (s : Manager) → IsEmpty s → IsSound s
IsEmpty-IsSound s empty = record {
  without_pool = λ e. empty;
  with_pool = λ ne. absurd (ne empty.no_start);
}

module _ (malloc : ℕ → Adress) (cell : MemoryBlock) (space : InSpace malloc) where
  pub init_promise :
      (n : ℕ) (s : Manager)
      → 0 < n
      → n < int_max
      → IsEmpty s
      → (t : Manager) × (state_only (Init.mem_init (malloc n) (some cell) n s) ≡ some t)
        × ((IsPool t × (owned t ≡ [])) ⊎ IsEmpty t)
  unfolding used
  init_promise n s pos small empty = elim (Bool-cases (malloc n == null)) [
    | inl failed ↦
        let (t, e, empty', unusable) =
          mem_init-IsEmpty (λ c b. none) (some cell) n s (IsEmpty-IsSound s empty) in
        (t, rw (eq_of_== _ _ failed) (ap state_only e), inr empty')
    | inr given ↦
        let ne = ne_of_== _ _ given in
        let (e, v) =
          mem_init-IsValid s (IsEmpty-IsSound s empty) (malloc n) ne n cell pos
            (space n pos small) in
        (
          one_block s (malloc n) n,
          ap state_only e,
          inl (
            (
              n,
              small,
              record { junk = []; shape = refl; valid = v; size_kept = refl; lock_free = refl },
            ),
            refl,
          ),
        )
  ]

IsPool-IsSound : (s : Manager) → IsPool s → IsSound s
IsPool-IsSound s (m, small, i) = record {
  without_pool = λ w. absurd (i.valid.started w);
  with_pool = λ ne. (ap (λ (t : Manager). t.lock_ready) i.shape, i.lock_free);
}

owned-IsEmpty : (s : Manager) → IsEmpty s → owned s ≡ []
unfolding used
owned-IsEmpty s empty = rw (empty.no_blocks)

pub deinit_promise :
    (s : Manager)
    → IsPool s
    → (t : Manager) × (state_only (Init.mem_deinit s) ≡ some t) × IsEmpty t × (owned t ≡ [])
deinit_promise s pool =
    let (t, e, empty, unusable, again) =
      mem_deinit-IsEmpty (λ c b. none) s (IsPool-IsSound s pool) in
    (t, ap state_only e, empty, owned-IsEmpty t empty)

pub stopped_promise : (s : Manager) → IsEmpty s → ¬ IsPool s
stopped_promise s empty (m, small, i) = i.valid.started empty.no_start

pub set_promise : (m : Bytes) (s : Manager) → IsPool s → IsPool (with_bytes m s)
set_promise m s (n, small, i) = (
  n,
  small,
  record {
    junk = i.junk;
    shape = ap (with_bytes m) i.shape;
    valid = IsValid-same s (with_bytes m s) (live s) refl refl i.valid;
    size_kept = i.size_kept;
    lock_free = i.lock_free;
  },
)

-- The manager, with what `malloc` and `realloc` answer.
abbrev pub pool :
    (realloc : Realloc) (malloc : ℕ → Adress)
    → MemoryBlock
    → HasRoom realloc
    → InSpace malloc
    → Allocator
pool realloc malloc cell room space = record {
  State = Manager;
  mem_init = λ n s. state_only (Init.mem_init (malloc n) (some cell) n s);
  mem_alloc = λ n s. to_option (Alloc.mem_alloc realloc n s);
  mem_free = λ p s. state_only (Free.mem_free p s);
  mem_deinit = λ s. state_only (Init.mem_deinit s);
  bytes = λ s. s.bytes;
  set_bytes = with_bytes;
  owned = owned;
  IsSafe = IsPool;
  IsStopped = IsEmpty;
  owned_ranges = owned-Ranges;
  init_law = init_promise malloc cell space;
  alloc_law = alloc_promise realloc room;
  free_law = free_promise;
  deinit_law = deinit_promise;
  stopped_law = stopped_promise;
  bytes_set = λ m s. refl;
  owned_set = λ m s. refl;
  set_set = λ m m' s. refl;
  set_self = λ s. refl;
  set_IsSafe = set_promise;
}
