-- ===== src/Manager/Free/TakeBack.antt =====
-- What `mem_free` promises to the one who calls it.
use assignment2_c.Prelude.{◌+◌, ◌≡◌, [], ◌∷◌, ◌==◌, Bool-cases, inl, inr, ◌∙◌}
use assignment2_c.Manager.{Adress, BlockTable, Manager, Run, ok, holding}
use assignment2_c.Manager.Layout.{IsTiling, IsValid, mark_free, coalesce}
use assignment2_c.Manager.Layout.Coalesce.{coalesce-IsTiling, IsMerged-coalesce}
use assignment2_c.Manager.Layout.Used.{used, without, used-coalesce, used-mark_free}
use assignment2_c.Manager.Free.{mem_free}
use assignment2_c.Manager.Free.Coalesce.{mem_free-coalesce}

mark_free-IsTiling :
    (p : Adress) (xs : BlockTable) (a end : Adress)
    → IsTiling a xs end
    → IsTiling a (mark_free p xs) end
unfolding mark_free
mark_free-IsTiling p [] a end t = t
mark_free-IsTiling p (b ∷ bs) a end t = elim (Bool-cases (b.start_adress == p)) [
  | inl hit ↦ rw hit t
  | inr miss ↦ rw miss (t.0, t.1, mark_free-IsTiling p bs (a + b.size) end t.2)
]

pub coalesce-IsValid :
    (s : Manager) (xs : BlockTable) (p : Adress)
    → IsValid s xs
    → IsValid s (coalesce (mark_free p xs))
coalesce-IsValid s xs p v = record {
  started = v.started;
  tiling = coalesce-IsTiling (mark_free p xs) _ _ (mark_free-IsTiling p xs _ _ v.tiling);
  merged = IsMerged-coalesce (mark_free p xs);
  in_range = v.in_range;
}

pub used-coalesce-mark_free :
    (s : Manager) (xs : BlockTable) (p : Adress)
    → IsValid s xs
    → used (coalesce (mark_free p xs)) ≡ without p (used xs)
used-coalesce-mark_free s xs p v = used-coalesce (mark_free p xs) ∙ used-mark_free p xs _ _ v.tiling

-- The live blocks after `mem_free(p)`.
pub record TakesBack (s : Manager) (xs : BlockTable) (p : Adress) (r : Run (Unit {0}))
    : Type 0 where
  pub blocks : BlockTable
  pub junk : BlockTable
  pub returns : r ≡ ok tt (holding s blocks junk)
  pub valid : IsValid s blocks
  pub taken : used blocks ≡ without p (used xs)

-- `mem_free` of any address returns, keeps the pool valid, and takes back the block that was handed
-- out at this address. If there is none, as for `NULL` or a block that is free already, what is
-- handed out stays the same. Every other block that is handed out still is, with its size.
pub mem_free-TakesBack :
    (s : Manager) (xs junk : BlockTable) (p : Adress)
    → IsValid s xs
    → TakesBack s xs p (mem_free p (holding s xs junk))
mem_free-TakesBack s xs junk p v =
    let (junk', e) = mem_free-coalesce s xs junk p v in
    record {
      blocks = coalesce (mark_free p xs);
      junk = junk';
      returns = e;
      valid = coalesce-IsValid s xs p v;
      taken = used-coalesce-mark_free s xs p v;
    }
