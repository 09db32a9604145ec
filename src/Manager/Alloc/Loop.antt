-- ===== src/Manager/Alloc/Loop.antt =====
-- The loop of `mem_alloc` finds the first block that fits.
use assignment2_c.Prelude.{
  ℕ, zero, suc, ◌+◌, ◌^◌, ◌<◌, ◌≡◌, refl, true, false, Option, none, some, [], ◌∷◌, ◌++◌, arith,
  length, length-split, append_assoc, append-nil, eq_of_==, ◌==◌, Bool-cases, inl, inr,
}
use assignment2_c.Manager.{
  Adress, null, MemoryBlock, BlockTable, Manager, Run, ok, holding, int_max, table,
}
use assignment2_c.Manager.Cells.{read-split}
use assignment2_c.Manager.Layout.Tiling.{IsTiling-le}
use assignment2_c.Manager.Layout.{IsTiling, fits, carve, behind, first_fit}
use assignment2_c.Manager.Alloc.{Realloc, alloc_loop}
use assignment2_c.Manager.Alloc.Take.{HasRoom, unlocked, take_block-exact, take_block-split}

-- The answer and the final state that the abstract allocation asks for.
abbrev pub Allocated :
    Manager
    → BlockTable
    → BlockTable
    → BlockTable
    → Option (Adress × BlockTable)
    → Run Adress
    → Type 0
Allocated s pre post junk none r = r ≡ ok null (unlocked (holding s (pre ++ post) junk))
Allocated s pre post junk (some (p, post')) r =
    (junk' : BlockTable) × (r ≡ ok p (unlocked (holding s (pre ++ post') junk')))

module _ (realloc : Realloc) (size : ℕ) where
  -- A block that does not fit is passed over.
  pub missed :
      (s : Manager) (pre : BlockTable) (b : MemoryBlock) (post junk : BlockTable)
      → fits size b ≡ false
      → alloc_loop realloc size (length (b ∷ post)) (length pre) (holding s (pre ++ b ∷ post) junk)
        ≡ alloc_loop realloc size
            (length post)
            (length (pre ++ b ∷ []))
            (holding s ((pre ++ b ∷ []) ++ post) junk)
  unfolding alloc_loop
  missed s pre b post junk miss =
      let n : length (pre ++ b ∷ []) ≡ suc (length pre) = omega (arith, length-split pre b []) in
      rw (append_assoc pre (b ∷ []) post, n)
        (simp append_assoc
          (rw (read-split (table s (length (pre ++ b ∷ post)) []) pre b (post ++ junk), miss)))

module _ (realloc : Realloc) (room : HasRoom realloc) (size : ℕ) where
  -- The body of the loop, at a block that fits.
  taken :
      (s : Manager) (pre : BlockTable) (b : MemoryBlock) (post junk : BlockTable)
      → length (pre ++ b ∷ post) < int_max
      → b.start_adress + b.size < 2 ^ 64
      → fits size b ≡ true
      → Allocated s pre (b ∷ post) junk (some (b.start_adress, carve size b post)) (
          alloc_loop realloc size
            (length (b ∷ post))
            (length pre)
            (holding s (pre ++ b ∷ post) junk))
  unfolding alloc_loop
  taken s pre b post junk few small fit = elim (Bool-cases (b.size == size)) [
    | inl exact ↦ (
      junk,
      rw exact (
          simp (append_assoc, length-split)
            (rw (read-split (table s (length pre + length post + 1) []) pre b (post ++ junk), fit)
              (take_block-exact realloc (table s (length pre + length post + 1) []) pre b
                (post ++ junk) size (eq_of_== _ _ exact)))),
    )
    | inr large ↦
        let c = record b { is_used = true } in
        let (fresh, e) = room (pre ++ c ∷ post) junk in
        let n : length pre + suc (length post) + 1 ≡ length pre + length post + 1 + 1 =
          omega arith in
        (
          [],
          rw large (
              simp (append_assoc, append-nil, length-split)
                (rw
                  (read-split (table s (length pre + length post + 1) []) pre b (post ++ junk), fit)
                  (rw n (
                    take_block-split realloc s pre b post junk fresh size
                      (length pre + length post + 1) refl (omega (arith, length-split pre b post))
                      (ground arith) small (simp (append_assoc, length-split) at e))))),
        )
  ]

  -- What is found behind `b` is found in the whole list.
  shifted :
      (s : Manager) (pre : BlockTable) (b : MemoryBlock) (post junk : BlockTable)
      (o : Option (Adress × BlockTable)) (r : Run Adress)
      → Allocated s (pre ++ b ∷ []) post junk o r
      → Allocated s pre (b ∷ post) junk (behind b o) r
  shifted s pre b post junk none r h = rw (append_assoc pre (b ∷ []) post) at h
  shifted s pre b post junk (some (p, post')) r (junk', h) =
      (junk', rw (append_assoc pre (b ∷ []) post') at h)

  finished :
      (s : Manager) (pre junk : BlockTable)
      → Allocated s pre [] junk none
          (alloc_loop realloc size zero (length pre) (holding s (pre ++ []) junk))
  unfolding alloc_loop
  finished s pre junk = refl

  pub alloc_loop-first_fit :
      (s : Manager) (post pre junk : BlockTable) (a end : Adress)
      → length (pre ++ post) < int_max
      → IsTiling a post end
      → end < 2 ^ 64
      → Allocated s pre post junk
          (first_fit size post)
          (alloc_loop realloc size (length post) (length pre) (holding s (pre ++ post) junk))
  unfolding first_fit
  alloc_loop-first_fit s [] pre junk a end few t small = finished s pre junk
  alloc_loop-first_fit s (b ∷ post) pre junk a end few t small = elim (Bool-cases (fits size b)) [
    | inl fit ↦ rw fit (taken s pre b post junk few (omega (arith, IsTiling-le post t.2)) fit)
    | inr miss ↦
        rw (miss, missed realloc size s pre b post junk miss)
          (shifted s pre b post junk (first_fit size post) _ (
            alloc_loop-first_fit s post (pre ++ b ∷ []) junk (a + b.size) end
              (rw (append_assoc pre (b ∷ []) post) few) t.2 small))
  ]
