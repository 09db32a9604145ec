-- ===== src/Manager/Layout/Room.antt =====
-- A block is put in the place of another; and the room that freeing a block makes.
use assignment2_c.Prelude.{
  ℕ, ◌+◌, ◌≡◌, ◌≤◌, refl, true, not, ◌&&◌, [], ◌∷◌, ◌++◌, arith, Bool-cases, last-cases, inl, inr,
  length, append_assoc, if◌then◌else◌,
}
use assignment2_c.Manager.{MemoryBlock, BlockTable, Adress}
use assignment2_c.Manager.Layout.{
  IsTiling, IsMerged, head_free, freed, joined, push_block, coalesce, mark_free,
}
use assignment2_c.Manager.Layout.FirstFit.{NoFit}
use assignment2_c.Manager.Layout.Coalesce.{coalesce-first, coalesce-behind, push_block-joined}

-- The end of a tiling may be replaced by what tiles the same range.
pub IsTiling-replace :
    (pre ys zs : BlockTable) (a end : Adress)
    → ((m : Adress) → IsTiling m ys end → IsTiling m zs end)
    → IsTiling a (pre ++ ys) end
    → IsTiling a (pre ++ zs) end
IsTiling-replace [] ys zs a end f t = f a t
IsTiling-replace (b ∷ pre) ys zs a end f t =
    (t.0, t.1, IsTiling-replace pre ys zs (a + b.size) end f t.2)

pub IsMerged-replace :
    (pre ys zs : BlockTable)
    → head_free zs ≡ head_free ys
    → IsMerged zs
    → IsMerged (pre ++ ys)
    → IsMerged (pre ++ zs)
IsMerged-replace [] ys zs h m k = m
IsMerged-replace (b ∷ []) ys zs h m k = (rw h k.0, m)
IsMerged-replace (b ∷ c ∷ pre) ys zs h m k = (k.0, IsMerged-replace (c ∷ pre) ys zs h m k.1)

NoFit-append : (n : ℕ) (pre ys : BlockTable) → NoFit n (pre ++ ys) → NoFit n ys
NoFit-append n [] ys f = f
NoFit-append n (b ∷ pre) ys f = NoFit-append n pre ys f.1

-- The size of the first block, if it is free.
abbrev pub free_size : BlockTable → ℕ
free_size [] = 0
free_size (c ∷ cs) = if not c.is_used then c.size else 0

-- A free block put in front of a list can be handed out, with the free block behind it.
push_block-fits :
    (n : ℕ) (b : MemoryBlock) (bs : BlockTable)
    → not b.is_used ≡ true
    → n ≤ b.size + free_size bs
    → ¬ NoFit n (push_block b bs)
push_block-fits n b [] free h f = ground arith
push_block-fits n b (c ∷ cs) free h f = elim (Bool-cases (not c.is_used)) [
  | inl e ↦
      let g : NoFit n (joined b c ∷ cs) = rw (free, e) at f in
      let k : n ≤ b.size + c.size = rw e at h in ground arith
  | inr e ↦
      let g : NoFit n (b ∷ c ∷ cs) = rw (free, e) at f in
      let k : n ≤ b.size + 0 = rw e at h in ground arith
]

push_block-fits_behind :
    (n : ℕ) (a : MemoryBlock) (bs : BlockTable) → ¬ NoFit n bs → ¬ NoFit n (push_block a bs)
push_block-fits_behind n a [] fit f = fit tt
push_block-fits_behind n a (c ∷ cs) fit f = elim (Bool-cases (not a.is_used && not c.is_used)) [
  | inl e ↦ let g : NoFit n (joined a c ∷ cs) = rw e at f in fit (ground arith, g.1)
  | inr e ↦ let g : NoFit n (a ∷ c ∷ cs) = rw e at f in fit g.1
]

-- Once a block is freed, as many bytes can be allocated as it has with the free block behind it.
freed-fits_first :
    (n : ℕ) (b : MemoryBlock) (post : BlockTable)
    → IsMerged (b ∷ post)
    → n ≤ b.size + free_size post
    → ¬ NoFit n (coalesce (freed b ∷ post))
freed-fits_first n b post m h f =
    push_block-fits n (freed b) post refl h (rw (coalesce-first b post m) at f)

pub freed-fits_behind :
    (n : ℕ) (pre : BlockTable) (a b : MemoryBlock) (post : BlockTable)
    → IsMerged (pre ++ a ∷ b ∷ post)
    → n ≤ b.size + free_size post
    → ¬ NoFit n (coalesce (pre ++ a ∷ freed b ∷ post))
freed-fits_behind n pre a b post m h f =
    push_block-fits_behind n a (push_block (freed b) post) (push_block-fits n (freed b) post refl h)
      (NoFit-append n pre (push_block a (push_block (freed b) post))
        (rw (coalesce-behind pre a b post m) at f))

-- If the block in front of it is free too, its bytes are added.
pub freed-fits_joined :
    (n : ℕ) (pre : BlockTable) (a b : MemoryBlock) (post : BlockTable)
    → IsMerged (pre ++ a ∷ b ∷ post)
    → not a.is_used ≡ true
    → n ≤ a.size + b.size + free_size post
    → ¬ NoFit n (coalesce (pre ++ a ∷ freed b ∷ post))
freed-fits_joined n pre a b post m free h f = push_block-fits n (joined a (freed b)) post free h (
    rw (push_block-joined a (freed b) post free refl) at (
      NoFit-append n pre (push_block a (push_block (freed b) post))
        (rw (coalesce-behind pre a b post m) at f)))

pub freed-fits :
    (n : ℕ) (pre : BlockTable) (b : MemoryBlock) (post : BlockTable)
    → IsMerged (pre ++ b ∷ post)
    → n ≤ b.size + free_size post
    → ¬ NoFit n (coalesce (pre ++ freed b ∷ post))
freed-fits n pre b post m h f = elim (last-cases pre) [
  | inl e ↦ freed-fits_first n b post (rw e at m) h (rw e at f)
  | inr (ys, a, e) ↦
      freed-fits_behind n ys a b post (rw (append_assoc ys (a ∷ []) (b ∷ post)) at (rw e at m)) h
        (rw (append_assoc ys (a ∷ []) (freed b ∷ post)) at (rw e at f))
]

length-push_block : (b : MemoryBlock) (bs : BlockTable) → length (push_block b bs) ≤ length (b ∷ bs)
length-push_block b [] = omega arith
length-push_block b (c ∷ cs) = ground arith

pub length-coalesce : (xs : BlockTable) → length (coalesce xs) ≤ length xs
unfolding coalesce
length-coalesce [] = omega arith
length-coalesce (b ∷ bs) = omega (arith, length-push_block b (coalesce bs), length-coalesce bs)

pub length-mark_free : (p : Adress) (xs : BlockTable) → length (mark_free p xs) ≡ length xs
unfolding mark_free
length-mark_free p [] = refl
length-mark_free p (b ∷ bs) = ground (arith, length-mark_free p bs)
