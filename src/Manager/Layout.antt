-- ===== src/Manager/Layout.antt =====
-- The abstract view of the pool: the list of its blocks from left to right. What the manager
-- promises of it, and what its operations mean on it.
pub mod Coalesce
pub mod FirstFit
pub mod Ranges
pub mod Room
pub mod RoundTrip
pub mod Tiling
pub mod Used
use assignment2_c.Prelude.{
  ℕ, ◌+◌, ◌-◌, ◌^◌, ◌≡◌, ◌≢◌, ◌<◌, Bool, true, false, not, ◌&&◌, Option, none, some, List, [], ◌∷◌,
  leb, ◌==◌, if◌then◌else◌,
}
use assignment2_c.Manager.{Adress, null, Manager, MemoryBlock, BlockTable}

abbrev pub block : Adress → ℕ → Bool → MemoryBlock
block a n u = record { start_adress = a; size = n; is_used = u }

-- The blocks lie one behind the other from `a` to `end`, and none is empty.
abbrev pub IsTiling : Adress → BlockTable → Adress → Type 0
IsTiling a [] end = a ≡ end
IsTiling a (b ∷ bs) end = (b.start_adress ≡ a) × (0 < b.size) × IsTiling (a + b.size) bs end

abbrev pub head_free : BlockTable → Bool
head_free [] = false
head_free (b ∷ bs) = not b.is_used

-- No two free blocks are neighbours.
abbrev pub IsMerged : BlockTable → Type 0
IsMerged [] = Unit {0}
IsMerged (b ∷ bs) = ((not b.is_used && head_free bs) ≡ false) × IsMerged bs

-- The first free block that is large enough is taken, and what it has too much becomes a free
-- block behind it.
abbrev pub fits : ℕ → MemoryBlock → Bool
fits n b = not b.is_used && leb n b.size

abbrev pub carve : ℕ → MemoryBlock → BlockTable → BlockTable
carve n b bs =
    if b.size == n
    then block b.start_adress b.size true ∷ bs
    else block b.start_adress n true ∷ block (b.start_adress + n) (b.size - n) false ∷ bs

abbrev pub behind : MemoryBlock → Option (Adress × BlockTable) → Option (Adress × BlockTable)
behind b none = none
behind b (some (p, cs)) = some (p, b ∷ cs)

unfoldable pub first_fit : ℕ → BlockTable → Option (Adress × BlockTable)
first_fit n [] = none
first_fit n (b ∷ bs) =
    if fits n b then some (b.start_adress, carve n b bs) else behind b (first_fit n bs)

abbrev pub freed : MemoryBlock → MemoryBlock
freed b = record b { is_used = false }

-- What is said of the result of an allocation, if there is one.
abbrev pub Gives : (Adress → BlockTable → Type 0) → Option (Adress × BlockTable) → Type 0
Gives P none = Unit {0}
Gives P (some (p, ys)) = P p ys

-- The block at `p` is marked as free.
unfoldable pub mark_free : Adress → BlockTable → BlockTable
mark_free p [] = []
mark_free p (b ∷ bs) = if b.start_adress == p then freed b ∷ bs else b ∷ mark_free p bs

-- `push_block` puts a block in front of a list, as one with the first block if both are free, and
-- `coalesce` makes one block of each run of free blocks.
abbrev pub joined : MemoryBlock → MemoryBlock → MemoryBlock
joined b c = record b { size = b.size + c.size }

abbrev pub push_block : MemoryBlock → BlockTable → BlockTable
push_block b [] = b ∷ []
push_block b (c ∷ cs) = if not b.is_used && not c.is_used then joined b c ∷ cs else b ∷ c ∷ cs

unfoldable pub coalesce : BlockTable → BlockTable
coalesce [] = []
coalesce (b ∷ bs) = push_block b (coalesce bs)

-- A pool that is in use, with the blocks `xs`: it has an address and ends in the address space,
-- the blocks fill it, and no two free ones are neighbours.
pub record IsValid (s : Manager) (xs : BlockTable) : Type 0 where
  pub started : s.mem_pool_start ≢ null
  pub tiling : IsTiling s.mem_pool_start xs (s.mem_pool_start + s.mem_pool_size)
  pub merged : IsMerged xs
  pub in_range : s.mem_pool_start + s.mem_pool_size < 2 ^ 64
