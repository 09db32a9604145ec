-- ===== src/Manager/Resize/Outcome.antt =====
-- What `mem_resize` of a block that is handed out comes to.
use assignment2_c.Prelude.{
  ℕ, ◌+◌, ◌≡◌, ◌<◌, true, false, not, ◌&&◌, some, [], ◌∷◌, ◌++◌, arith, length, length-append,
  append_assoc, Bool-cases, inl, inr, ◌==◌, ==_of_ne, eq_of_==, leb, ltb, lt→ltb,
}
use assignment2_c.Manager.{null, MemoryBlock, BlockTable, Manager, ok, holding, int_max}
use assignment2_c.Manager.Layout.{IsValid}
use assignment2_c.Manager.Layout.Room.{freed-fits}
use assignment2_c.Manager.Layout.Tiling.{IsTiling-rest}
use assignment2_c.Manager.Layout.Used.{used}
use assignment2_c.Manager.Layout.Ranges.{In}
use assignment2_c.Manager.Alloc.{Realloc}
use assignment2_c.Manager.Alloc.Take.{HasRoom}
use assignment2_c.Manager.Free.Coalesce.{start-ne-null}
use assignment2_c.Manager.Resize.{next_suffices, grow, resize_at, mem_resize}
use assignment2_c.Manager.Resize.Search.{find_last-index_of}
use assignment2_c.Manager.Resize.Replace.{locked}
use assignment2_c.Manager.Resize.Room.{available, next_suffices-last}
use assignment2_c.Manager.Resize.Grown.{In-UsedBlock, index_of-split}
use assignment2_c.Manager.Resize.Branches.{
  Outcome, unchanged, replaced, grow_elsewhere, grow_right-Resized, suffices, read_here,
  IsValid-inside,
}

module _ (realloc : Realloc) (s : Manager) (size : ℕ) (room : HasRoom realloc)
    (pos : 0 < size) where
  grow_not_right :
      (pre : BlockTable) (b : MemoryBlock) (post junk : BlockTable)
      → IsValid s (pre ++ b ∷ post)
      → b.is_used ≡ true
      → length (pre ++ b ∷ post) < int_max
      → In b.start_adress b.size (used (pre ++ b ∷ post))
      → b.size < size
      → next_suffices (length pre) size (holding (locked s) (pre ++ b ∷ post) junk)
        ≡ ok false (holding (locked s) (pre ++ b ∷ post) junk)
      → Outcome s (pre ++ b ∷ post) junk b.start_adress b.size size (
          grow realloc (length pre) b.start_adress size (holding (locked s) (pre ++ b ∷ post) junk))
  grow_not_right pre b post junk v u few there larger e =
      let av =
        available (locked s) pre b post junk (IsValid-inside realloc s pre b post junk size v u) in
      let (m, le, t) = IsTiling-rest pre (b ∷ post) _ _ v.tiling in
      grow_elsewhere realloc s pre b post junk size v u room pos few av.size there t.1 larger e
        av.computed av.enough

  grow_lem :
      (pre : BlockTable) (b : MemoryBlock) (post junk : BlockTable)
      → IsValid s (pre ++ b ∷ post)
      → b.is_used ≡ true
      → length (pre ++ b ∷ post) < int_max
      → In b.start_adress b.size (used (pre ++ b ∷ post))
      → b.size < size
      → Outcome s (pre ++ b ∷ post) junk b.start_adress b.size size (
          grow realloc (length pre) b.start_adress size (holding (locked s) (pre ++ b ∷ post) junk))
  unfolding grow
  grow_lem pre b [] junk v u few there larger = grow_not_right pre b [] junk v u few there larger (
      rw (append_assoc pre (b ∷ []) junk) (
        next_suffices-last (locked s) pre b junk (length (pre ++ b ∷ [])) size
          (omega (arith, length-append pre (b ∷ [])))))
  grow_lem pre b (c ∷ post) junk v u few there larger =
      let e = suffices realloc s pre b c post junk size v u in
      elim (Bool-cases (not c.is_used && leb size (b.size + c.size))) [
        | inl yes_right ↦
            rw (e, yes_right)
              (inr (
                grow_right-Resized realloc s pre b c post junk size v u (ground arith) larger
                  (ground arith)))
        | inr not_right ↦
            grow_not_right pre b (c ∷ post) junk v u few there larger (rw not_right at e)
      ]

  resize_at-Outcome :
      (pre : BlockTable) (b : MemoryBlock) (post junk : BlockTable)
      → IsValid s (pre ++ b ∷ post)
      → b.is_used ≡ true
      → length (pre ++ b ∷ post) < int_max
      → In b.start_adress b.size (used (pre ++ b ∷ post))
      → Outcome s (pre ++ b ∷ post) junk b.start_adress b.size size (
          resize_at realloc
            (some (length pre))
            b.start_adress
            size
            (holding (locked s) (pre ++ b ∷ post) junk))
  unfolding resize_at
  resize_at-Outcome pre b post junk v u few there =
      rw (read_here realloc s pre b post junk size v u) (elim (Bool-cases (b.size == size)) [
        | inl same ↦
            rw same (inr (unchanged realloc s pre b post junk size v u (eq_of_== b.size size same)))
        | inr other ↦ rw other (elim (Bool-cases (ltb b.size size)) [
          | inl larger ↦ rw larger (grow_lem pre b post junk v u few there (ground arith))
          | inr not_larger ↦
              let smaller : size < b.size = ground arith in
              rw (not_larger, lt→ltb size b.size smaller)
                (inr (
                  replaced realloc s pre b post junk size v u room pos few size (omega arith)
                    (λ k h l. l) (freed-fits size pre b post v.merged (omega arith))))
        ])
      ])

  found :
      (pre : BlockTable) (b : MemoryBlock) (post junk : BlockTable)
      → IsValid s (pre ++ b ∷ post)
      → b.is_used ≡ true
      → length (pre ++ b ∷ post) < int_max
      → In b.start_adress b.size (used (pre ++ b ∷ post))
      → Outcome s
          (pre ++ b ∷ post)
          junk
          b.start_adress
          b.size
          size
          (mem_resize realloc b.start_adress size (holding s (pre ++ b ∷ post) junk))
  unfolding mem_resize
  found pre b post junk v u few there =
      let z : 0 + length pre ≡ length pre = omega arith in
      rw
        (
          ==_of_ne b.start_adress null (start-ne-null s pre b post v),
          find_last-index_of (locked s) b.start_adress (pre ++ b ∷ post) junk _ _ v.tiling,
          index_of-split b post pre 0 _ _ v.tiling,
          z,
        )
        (resize_at-Outcome pre b post junk v u few there)

-- `mem_resize`, when `realloc` has memory for the array, the new size is not zero, and `p` is the
-- address of a block of `old` bytes that is handed out. It returns `NULL` and changes nothing only if
-- the block was to grow and no free block was large enough. Otherwise the block at `p` becomes
-- exactly one block of the new size, there or elsewhere: the bytes it had are kept, as far as there is
-- room, so are those of every other block that is handed out, and the pool stays valid.
pub mem_resize-Outcome :
    (realloc : Realloc) (s : Manager) (size : ℕ) (xs junk : BlockTable) (p old : ℕ)
    → HasRoom realloc
    → 0 < size
    → length xs < int_max
    → IsValid s xs
    → In p old (used xs)
    → Outcome s xs junk p old size (mem_resize realloc p size (holding s xs junk))
mem_resize-Outcome realloc s size xs junk p old room pos few v there =
    let u = In-UsedBlock p old xs there in
    rw (← u.starts, ← u.long, u.whole)
      (found realloc s size room pos u.before u.here u.after junk (rw u.whole at v) u.in_use
        (rw u.whole at few) (rw (← u.starts, ← u.long, u.whole) at there))
