-- ===== src/Manager/Layout/Coalesce.antt =====
-- Merging a list of blocks in which one block has just become free.
use assignment2_c.Prelude.{
  ◌+◌, ◌≡◌, refl, true, false, not, ◌&&◌, [], ◌∷◌, ◌++◌, arith, Bool-cases, inl, inr, add_assoc,
}
use assignment2_c.Manager.{MemoryBlock, BlockTable, Adress}
use assignment2_c.Manager.Layout.{
  head_free, IsMerged, IsTiling, joined, freed, push_block, coalesce,
}

pub push_block-noop :
    (b : MemoryBlock) (bs : BlockTable)
    → (not b.is_used && head_free bs) ≡ false
    → push_block b bs ≡ b ∷ bs
push_block-noop b [] h = refl
push_block-noop b (c ∷ cs) h = rw h

-- A list with no free neighbours has nothing to merge.
pub coalesce-IsMerged : (xs : BlockTable) → IsMerged xs → coalesce xs ≡ xs
unfolding coalesce
coalesce-IsMerged [] h = refl
coalesce-IsMerged (b ∷ bs) h = rw (coalesce-IsMerged bs h.1, push_block-noop b bs h.0)

-- Only the neighbours of the freed block are merged: the first block, or one behind `a`.
pub coalesce-first :
    (b : MemoryBlock) (post : BlockTable)
    → IsMerged (b ∷ post)
    → coalesce (freed b ∷ post) ≡ push_block (freed b) post
unfolding coalesce
coalesce-first b post h = rw (coalesce-IsMerged post h.1)

head_free-push_block :
    (b : MemoryBlock) (bs : BlockTable) → head_free (push_block b bs) ≡ not b.is_used
head_free-push_block b [] = refl
head_free-push_block b (c ∷ cs) = ground arith

pub coalesce-behind :
    (pre : BlockTable) (a b : MemoryBlock) (post : BlockTable)
    → IsMerged (pre ++ a ∷ b ∷ post)
    → coalesce (pre ++ a ∷ freed b ∷ post) ≡ pre ++ push_block a (push_block (freed b) post)
unfolding coalesce
coalesce-behind [] a b post h = rw (coalesce-IsMerged post h.1.1)
coalesce-behind (c ∷ []) a b post h = rw (coalesce-IsMerged post h.1.1.1) (
    push_block-noop c (push_block a (push_block (freed b) post))
      (rw (head_free-push_block a (push_block (freed b) post)) h.0))
coalesce-behind (c ∷ d ∷ pre) a b post h = rw (coalesce-behind (d ∷ pre) a b post h.1, h.0)

-- Merging leaves no free neighbours.
pub push_block-IsMerged :
    (b : MemoryBlock) (bs : BlockTable) → IsMerged bs → IsMerged (push_block b bs)
push_block-IsMerged b [] h = (ground arith, tt)
push_block-IsMerged b (c ∷ cs) h = ground arith

pub IsMerged-coalesce : (xs : BlockTable) → IsMerged (coalesce xs)
unfolding coalesce
IsMerged-coalesce [] = tt
IsMerged-coalesce (b ∷ bs) = push_block-IsMerged b (coalesce bs) (IsMerged-coalesce bs)

-- Merging keeps the tiling.
push_block-IsTiling :
    (b : MemoryBlock) (bs : BlockTable) (a end : Adress)
    → IsTiling a (b ∷ bs) end
    → IsTiling a (push_block b bs) end
push_block-IsTiling b [] a end t = t
push_block-IsTiling b (c ∷ cs) a end t = elim (Bool-cases (not b.is_used && not c.is_used)) [
  | inl e ↦ rw e (t.0, omega arith, rw add_assoc at t.2.2)
  | inr e ↦ rw e t
]

pub coalesce-IsTiling :
    (xs : BlockTable) (a end : Adress) → IsTiling a xs end → IsTiling a (coalesce xs) end
unfolding coalesce
coalesce-IsTiling [] a end t = t
coalesce-IsTiling (b ∷ bs) a end t =
    push_block-IsTiling b (coalesce bs) a end (t.0, t.1, coalesce-IsTiling bs (a + b.size) end t.2)

-- Two free blocks in front are merged in either order.
pub push_block-joined :
    (a b : MemoryBlock) (bs : BlockTable)
    → not a.is_used ≡ true
    → not b.is_used ≡ true
    → push_block a (push_block b bs) ≡ push_block (joined a b) bs
push_block-joined a b [] p q = rw (p, q)
push_block-joined a b (c ∷ cs) p q = ground arith
