-- ===== src/Manager/Free/RoundTrip.antt =====
-- `mem_free` undoes `mem_alloc`.
use assignment2_c.Prelude.{ℕ, ◌<◌, ◌≡◌, refl, Option, none, some, length}
use assignment2_c.Manager.{Adress, null, BlockTable, Manager, Run, ok, holding, int_max}
use assignment2_c.Manager.Layout.{IsValid, first_fit, Gives, mark_free, coalesce}
use assignment2_c.Manager.Layout.RoundTrip.{coalesce-first_fit}
use assignment2_c.Manager.Alloc.{Realloc, mem_alloc}
use assignment2_c.Manager.Alloc.Take.{HasRoom}
use assignment2_c.Manager.Alloc.FirstFit.{Answers, mem_alloc-first_fit, first_fit-IsValid}
use assignment2_c.Manager.Free.{mem_free}
use assignment2_c.Manager.Free.Coalesce.{mem_free-coalesce}

-- The run returns, and `mem_free` of what it returns leads back to the live blocks `xs`.
pub record Undone (s : Manager) (xs : BlockTable) (r : Run Adress) : Type 0 where
  pub adress : Adress
  pub after : Manager
  pub junk : BlockTable
  pub returns : r ≡ ok adress after
  pub back : mem_free adress after ≡ ok tt (holding s xs junk)

undo :
    (s : Manager) (xs junk : BlockTable) (r : Run Adress) (o : Option (Adress × BlockTable))
    → Answers s xs junk o r
    → Gives (λ _. IsValid s) o
    → Gives (λ p ys. coalesce (mark_free p ys) ≡ xs) o
    → Undone s xs r
unfolding mem_free
undo s xs junk r none a v e = record {
  adress = null;
  after = holding s xs junk;
  junk = junk;
  returns = a;
  back = refl;
}
undo s xs junk r (some (p, ys)) (junk', a) v e =
    let (junk'', f) = mem_free-coalesce s ys junk' p v in
    record { adress = p; after = holding s ys junk'; junk = junk''; returns = a; back = rw e at f }

-- Under the conditions of a successful `realloc` and a countable number of blocks, `mem_alloc` of a
-- size other than 0, followed by `mem_free` of what it returned, leads back to the same live blocks
-- and changes nothing else in the state. This includes the `NULL` of a failed allocation.
pub mem_free-mem_alloc :
    (realloc : Realloc) (size : ℕ) (s : Manager) (xs junk : BlockTable)
    → HasRoom realloc
    → 0 < size
    → length xs < int_max
    → IsValid s xs
    → Undone s xs (mem_alloc realloc size (holding s xs junk))
mem_free-mem_alloc realloc size s xs junk room pos few v =
    undo s xs junk _ (first_fit size xs) (mem_alloc-first_fit realloc size s xs junk room pos few v)
      (first_fit-IsValid size s xs pos v) (coalesce-first_fit size xs _ _ v.tiling v.merged)
