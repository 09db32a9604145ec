-- ===== src/Manager/Alloc/HandOut.antt =====
-- What `mem_alloc` promises to the one who calls it.
use assignment2_c.Prelude.{
  ℕ, ◌+◌, ◌≤◌, ◌<◌, ◌≡◌, ◌≢◌, refl, ◌⊎◌, inl, inr, Option, none, some, arith, length,
}
use assignment2_c.Manager.{Adress, null, BlockTable, Manager, Run, ok, holding, int_max}
use assignment2_c.Manager.Layout.{IsValid, first_fit, Gives}
use assignment2_c.Manager.Layout.FirstFit.{NoFit, first_fit-NoFit, first_fit-le}
use assignment2_c.Manager.Layout.Used.{used, Inserted, Ranges, used-first_fit, used-Ranges}
use assignment2_c.Manager.Alloc.{Realloc, mem_alloc}
use assignment2_c.Manager.Alloc.Take.{HasRoom}
use assignment2_c.Manager.Alloc.FirstFit.{Answers, mem_alloc-first_fit, first_fit-IsValid}

-- The block `(p, size)` is handed out.
pub record HandsOut (s : Manager) (xs : BlockTable) (size : ℕ) (r : Run Adress) : Type 0 where
  pub adress : Adress
  pub blocks : BlockTable
  pub junk : BlockTable
  pub returns : r ≡ ok adress (holding s blocks junk)
  pub ne_null : adress ≢ null
  pub valid : IsValid s blocks
  pub inserted : Inserted (adress, size) (used xs) (used blocks)
  pub apart : Ranges s.mem_pool_start (used blocks) (s.mem_pool_start + s.mem_pool_size)

outcome :
    (s : Manager) (xs junk : BlockTable) (size : ℕ) (r : Run Adress)
    (o : Option (Adress × BlockTable))
    → IsValid s xs
    → (o ≡ none → NoFit size xs)
    → Answers s xs junk o r
    → Gives (λ _. IsValid s) o
    → Gives (λ p _. s.mem_pool_start ≤ p) o
    → Gives (λ p ys. Inserted (p, size) (used xs) (used ys)) o
    → ((r ≡ ok null (holding s xs junk)) × NoFit size xs) ⊎ HandsOut s xs size r
outcome s xs junk size r none v no_fit a k le i = inl (a, no_fit refl)
outcome s xs junk size r (some (p, ys)) v no_fit (junk', a) k le i = inr (record {
  adress = p;
  blocks = ys;
  junk = junk';
  returns = a;
  ne_null = λ e. v.started (omega (arith, e));
  valid = k;
  inserted = i;
  apart = used-Ranges ys _ _ k.tiling;
})

-- For a size other than 0, while `realloc` succeeds and an `int` can count the blocks, `mem_alloc`
-- either returns `NULL`, changes nothing, and no free block is large enough; or it hands out a block
-- of exactly this size. Then the pool is valid, all that was handed out before still is, the new
-- range is the only one that is added, and no two ranges overlap or leave the pool.
pub mem_alloc-HandsOut :
    (realloc : Realloc) (size : ℕ) (s : Manager) (xs junk : BlockTable)
    → HasRoom realloc
    → 0 < size
    → length xs < int_max
    → IsValid s xs
    → ((mem_alloc realloc size (holding s xs junk) ≡ ok null (holding s xs junk)) × NoFit size xs)
      ⊎ HandsOut s xs size (mem_alloc realloc size (holding s xs junk))
mem_alloc-HandsOut realloc size s xs junk room pos few v =
    outcome s xs junk size _ (first_fit size xs) v (first_fit-NoFit size xs)
      (mem_alloc-first_fit realloc size s xs junk room pos few v)
      (first_fit-IsValid size s xs pos v) (first_fit-le size xs _ _ v.tiling)
      (used-first_fit size xs)

-- `mem_alloc(0)` returns the start of the pool, and hands nothing out.
pub mem_alloc-zero :
    (realloc : Realloc) (s : Manager) (xs junk : BlockTable)
    → mem_alloc realloc 0 (holding s xs junk) ≡ ok s.mem_pool_start (holding s xs junk)
unfolding mem_alloc
mem_alloc-zero realloc s xs junk = refl
