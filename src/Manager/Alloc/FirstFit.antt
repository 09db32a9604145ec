-- ===== src/Manager/Alloc/FirstFit.antt =====
-- `mem_alloc` implements the abstract first-fit allocation, keeps the pool valid, and what it does
-- when `realloc` fails.
use assignment2_c.Prelude.{ℕ, suc, ◌+◌, ◌<◌, ◌≡◌, Option, none, some, [], arith, length, ==_of_ne}
use assignment2_c.Manager.{Adress, null, BlockTable, Manager, Run, ok, holding, int_max}
use assignment2_c.Manager.Layout.{IsTiling, IsMerged, IsValid, first_fit, Gives}
use assignment2_c.Manager.Layout.FirstFit.{first_fit-IsTiling, first_fit-IsMerged}
use assignment2_c.Manager.Alloc.{Realloc, mem_alloc}
use assignment2_c.Manager.Alloc.Take.{HasRoom}
use assignment2_c.Manager.Alloc.Loop.{Allocated, alloc_loop-first_fit}

-- The run answers `NULL` and leaves the state as it was; or it answers the address, with the new
-- list of live blocks, and nothing else in the state is changed.
abbrev pub Answers :
    Manager → BlockTable → BlockTable → Option (Adress × BlockTable) → Run Adress → Type 0
Answers s xs junk none r = r ≡ ok null (holding s xs junk)
Answers s xs junk (some (p, ys)) r = (junk' : BlockTable) × (r ≡ ok p (holding s ys junk'))

answered :
    (s : Manager) (xs junk : BlockTable) (o : Option (Adress × BlockTable)) (r : Run Adress)
    → Allocated (record s { lock_depth = suc s.lock_depth }) [] xs junk o r
    → Answers s xs junk o r
answered s xs junk none r h = h
answered s xs junk (some (p, ys)) r h = h

-- For a size other than 0, while `realloc` succeeds and the blocks can be counted by an `int`:
-- `mem_alloc` returns what the abstract first-fit allocation returns. If that finds no block it
-- returns `NULL` and changes nothing; if it does, the live blocks are the abstract ones, and
-- nothing else in the state is changed.
pub mem_alloc-first_fit :
    (realloc : Realloc) (size : ℕ) (s : Manager) (xs junk : BlockTable)
    → HasRoom realloc
    → 0 < size
    → length xs < int_max
    → IsValid s xs
    → Answers s xs junk (first_fit size xs) (mem_alloc realloc size (holding s xs junk))
unfolding mem_alloc
mem_alloc-first_fit realloc size s xs junk room pos few v = rw (==_of_ne size 0 (omega arith)) (
    answered s xs junk (first_fit size xs) _ (
      alloc_loop-first_fit realloc room size (record s { lock_depth = suc s.lock_depth }) xs [] junk
        _ _ few v.tiling v.in_range))

-- The abstract allocation of at least one byte keeps a pool valid.
pub first_fit-IsValid :
    (size : ℕ) (s : Manager) (xs : BlockTable)
    → 0 < size
    → IsValid s xs
    → Gives (λ _. IsValid s) (first_fit size xs)
first_fit-IsValid size s xs pos v =
    valid (first_fit size xs) (first_fit-IsTiling size xs _ _ pos v.tiling)
      (first_fit-IsMerged size xs v.merged)
  where
    valid :
        (o : Option (Adress × BlockTable))
        → Gives (λ _ ys. IsTiling s.mem_pool_start ys (s.mem_pool_start + s.mem_pool_size)) o
        → Gives (λ _. IsMerged) o
        → Gives (λ _. IsValid s) o
    valid none t m = tt
    valid (some (p, ys)) t m = record {
      started = v.started;
      tiling = t;
      merged = m;
      in_range = v.in_range;
    }
