-- ===== src/Manager/Free/Coalesce.antt =====
-- `mem_free` implements the abstract release: mark the block, then merge.
use assignment2_c.Prelude.{
  suc, ◌+◌, ◌≡◌, ◌≢◌, refl, true, false, not, none, some, [], ◌∷◌, ◌++◌, arith, length,
  length-append, append_assoc, Bool-cases, last-cases, inl, inr, ◌==◌, ◌∙◌, ==_of_ne,
}
use assignment2_c.Manager.{Adress, null, MemoryBlock, BlockTable, Manager, ok, table, holding}
use assignment2_c.Manager.Cells.{read-split}
use assignment2_c.Manager.Layout.{IsTiling, IsMerged, IsValid, mark_free, freed, coalesce}
use assignment2_c.Manager.Layout.Tiling.{head_size-le, IsTiling-rest}
use assignment2_c.Manager.Layout.Coalesce.{coalesce-IsMerged, coalesce-first, coalesce-behind}
use assignment2_c.Manager.Free.{free_at, mem_free, release_block}
use assignment2_c.Manager.Free.Search.{index_of, find_index-index_of, search-cases}
use assignment2_c.Manager.Free.Release.{Leaves, release_block-first, release_block-behind}

freed_self : (b : MemoryBlock) → not b.is_used ≡ true → freed b ≡ b
freed_self b u = ground arith

release_behind :
    (s : Manager) (ys : BlockTable) (a b : MemoryBlock) (post junk : BlockTable)
    → IsValid s (ys ++ a ∷ b ∷ post)
    → Leaves s
        (coalesce (ys ++ a ∷ freed b ∷ post))
        (release_block (suc (length ys)) (holding s (ys ++ a ∷ b ∷ post) junk))
release_behind s ys a b post junk v =
    let (m, le, t) = IsTiling-rest ys (a ∷ b ∷ post) _ _ v.tiling in
    rw (coalesce-behind ys a b post v.merged, append_assoc ys (a ∷ b ∷ post) junk)
      (release_block-behind s ys a b post junk (length (ys ++ a ∷ b ∷ post))
        (omega (arith, length-append ys (a ∷ b ∷ post)))
        (omega (arith, v.in_range, le, t, head_size-le post _ _ t.2.2)))

-- A used block with what stands before and behind it.
release_split :
    (s : Manager) (pre : BlockTable) (b : MemoryBlock) (post junk : BlockTable)
    → IsValid s (pre ++ b ∷ post)
    → Leaves s
        (coalesce (pre ++ freed b ∷ post))
        (release_block (length pre) (holding s (pre ++ b ∷ post) junk))
release_split s pre b post junk v = elim (last-cases pre) [
  | inl e ↦
      let t : IsTiling s.mem_pool_start (b ∷ post) (s.mem_pool_start + s.mem_pool_size) =
        rw e at v.tiling in
      let m : IsMerged (b ∷ post) = rw e at v.merged in
      let small = head_size-le post _ _ t.2 in
      rw e (
        rw (coalesce-first b post m) (
          release_block-first s b post junk (length (b ∷ post)) (omega arith)
            (omega (arith, v.in_range, small))))
  | inr (ys, a, e) ↦
      let v' : IsValid s (ys ++ a ∷ b ∷ post) =
        rw (append_assoc ys (a ∷ []) (b ∷ post)) at (rw e at v) in
      let m : length (ys ++ a ∷ []) ≡ suc (length ys) = omega (arith, length-append ys (a ∷ [])) in
      rw (e, m, append_assoc ys (a ∷ []) (b ∷ post), append_assoc ys (a ∷ []) (freed b ∷ post))
        (release_behind s ys a b post junk v')
]

free_at-split :
    (s : Manager) (pre : BlockTable) (b : MemoryBlock) (post junk : BlockTable)
    → IsValid s (pre ++ b ∷ post)
    → Leaves s
        (coalesce (pre ++ freed b ∷ post))
        (free_at (some (length pre)) (holding s (pre ++ b ∷ post) junk))
unfolding free_at
free_at-split s pre b post junk v =
    rw
      (
        append_assoc pre (b ∷ post) junk,
        read-split (table s (length (pre ++ b ∷ post)) []) pre b (post ++ junk),
      )
      (elim (Bool-cases (not b.is_used)) [
        | inl u ↦
            rw (u, freed_self b u, coalesce-IsMerged (pre ++ b ∷ post) v.merged)
              (junk, rw (append_assoc pre (b ∷ post) junk))
        | inr u ↦
            rw u (rw (append_assoc pre (b ∷ post) junk) at (release_split s pre b post junk v))
      ])

-- The address of a block of a valid pool is not `NULL`.
pub start-ne-null :
    (s : Manager) (pre : BlockTable) (b : MemoryBlock) (post : BlockTable)
    → IsValid s (pre ++ b ∷ post)
    → b.start_adress ≢ null
start-ne-null s pre b post v e =
    let (m, le, t) = IsTiling-rest pre (b ∷ post) _ _ v.tiling in
    v.started (omega (arith, le, t.0, e))

not_found :
    (s : Manager) (xs junk : BlockTable) (p : Adress)
    → index_of p 0 xs ≡ none
    → mem_free p (holding s xs junk) ≡ ok tt (holding s xs junk)
unfolding mem_free free_at
not_found s xs junk p e = elim (Bool-cases (p == null)) [
  | inl null_given ↦ rw null_given
  | inr other ↦ rw (
    other,
    find_index-index_of (holding (record s { lock_depth = suc s.lock_depth }) xs junk) p xs [] junk
        0 refl,
    e,
  )
]

found :
    (s : Manager) (pre : BlockTable) (b : MemoryBlock) (post junk : BlockTable) (p : Adress)
    → IsValid s (pre ++ b ∷ post)
    → b.start_adress ≡ p
    → index_of p 0 (pre ++ b ∷ post) ≡ some (0 + length pre)
    → (junk' : BlockTable) × (mem_free p (holding s (pre ++ b ∷ post) junk)
        ≡ ok tt (holding s (coalesce (pre ++ freed b ∷ post)) junk'))
unfolding mem_free
found s pre b post junk p v at_p e =
    let xs = pre ++ b ∷ post in
    let s' = record s { lock_depth = suc s.lock_depth } in
    let z : 0 + length pre ≡ length pre = omega arith in
    let other : (p == null) ≡ false =
      ==_of_ne p null (λ n. start-ne-null s pre b post v (at_p ∙ n)) in
    rw (other, find_index-index_of (holding s' xs junk) p xs [] junk 0 refl, e, z)
      (free_at-split s' pre b post junk (record {
        started = v.started;
        tiling = v.tiling;
        merged = v.merged;
        in_range = v.in_range;
      }))

-- `mem_free` of any address marks the used block that begins there, if there is one, merges it with
-- its free neighbours, and changes nothing else.
pub mem_free-coalesce :
    (s : Manager) (xs junk : BlockTable) (p : Adress)
    → IsValid s xs
    → (junk' : BlockTable) × (mem_free p (holding s xs junk)
        ≡ ok tt (holding s (coalesce (mark_free p xs)) junk'))
mem_free-coalesce s xs junk p v = elim (search-cases p 0 xs) [
  | inl (e, m) ↦ (junk, rw (m, coalesce-IsMerged xs v.merged) (not_found s xs junk p e))
  | inr (f, e) ↦ rw (f.marked) (
      rw f.whole
        (found s f.before f.here f.after junk p (rw f.whole at v) f.starts (rw f.whole at e)))
]
