-- ===== src/Manager/Alloc/NoMemory.antt =====
-- `mem_alloc` when `realloc` fails.
use assignment2_c.Prelude.{
  ℕ, suc, ◌<◌, ◌≡◌, ◌≢◌, true, false, Option, none, some, [], ◌∷◌, ◌++◌, arith, length,
  append_assoc, Bool-cases, inl, inr, if◌then◌else◌, ==_of_ne, ap, sym, ◌∙◌, some-injective,
}
use assignment2_c.Manager.{null, MemoryBlock, BlockTable, Manager, ok, holding, released, table}
use assignment2_c.Manager.Cells.{read-split}
use assignment2_c.Manager.Layout.{fits}
use assignment2_c.Manager.Alloc.{Realloc, alloc_loop, mem_alloc}
use assignment2_c.Manager.Alloc.Take.{HasNoRoom, unlocked, take_block-HasNoRoom}
use assignment2_c.Manager.Alloc.Loop.{missed}

-- The block that the loop of `mem_alloc` stops at.
unfoldable pub candidate : ℕ → BlockTable → Option MemoryBlock
candidate n [] = none
candidate n (b ∷ bs) = if fits n b then some b else candidate n bs

module _ (realloc : Realloc) (none_left : HasNoRoom realloc) (size : ℕ) where
  stopped :
      (s : Manager) (pre : BlockTable) (b : MemoryBlock) (post junk : BlockTable)
      → fits size b ≡ true
      → b.size ≢ size
      → alloc_loop realloc size (length (b ∷ post)) (length pre) (holding s (pre ++ b ∷ post) junk)
        ≡ ok null (unlocked (unlocked (holding s (pre ++ b ∷ post) junk)))
  unfolding alloc_loop
  stopped s pre b post junk fit ne =
      let self : record b { is_used = false } ≡ b = ground arith in
      simp append_assoc (
        rw (
          read-split (table s (length (pre ++ b ∷ post)) []) pre b (post ++ junk),
          fit,
          take_block-HasNoRoom realloc (table s (length (pre ++ b ∷ post)) []) pre b (post ++ junk)
              size none_left (ground arith),
          self,
        ))

  alloc_loop-HasNoRoom :
      (s : Manager) (post pre junk : BlockTable) (b : MemoryBlock)
      → candidate size post ≡ some b
      → b.size ≢ size
      → alloc_loop realloc size (length post) (length pre) (holding s (pre ++ post) junk)
        ≡ ok null (unlocked (unlocked (holding s (pre ++ post) junk)))
  unfolding candidate
  alloc_loop-HasNoRoom s [] pre junk b e ne = cc
  alloc_loop-HasNoRoom s (c ∷ post) pre junk b e ne = elim (Bool-cases (fits size c)) [
    | inl fit ↦
        stopped s pre c post junk fit
          (λ n. ne (ap (λ d. d.size) (sym (some-injective c b (rw fit at e))) ∙ n))
    | inr miss ↦
        rw (missed realloc size s pre c post junk miss, append_assoc pre (c ∷ []) post)
          (rw (append_assoc pre (c ∷ []) post) at
            (alloc_loop-HasNoRoom s post (pre ++ c ∷ []) junk b (rw miss at e) ne))
  ]

  -- When `realloc` fails for a block that has to be split, `mem_alloc` returns `NULL` and the blocks
  -- are as they were, but the lock is held once less than before the call.
  pub mem_alloc-HasNoRoom :
      (s : Manager) (xs junk : BlockTable) (b : MemoryBlock)
      → 0 < size
      → candidate size xs ≡ some b
      → b.size ≢ size
      → mem_alloc realloc size (holding s xs junk)
        ≡ ok null (record (holding s xs junk) { lock_depth = released s.lock_depth })
  unfolding mem_alloc
  mem_alloc-HasNoRoom s xs junk b pos e ne =
      rw (==_of_ne size 0 (omega arith))
        (alloc_loop-HasNoRoom (record s { lock_depth = suc s.lock_depth }) xs [] junk b e ne)
