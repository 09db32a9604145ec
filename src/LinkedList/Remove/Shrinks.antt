-- ===== src/LinkedList/Remove/Shrinks.antt =====
-- The list less its first node with a number, and what a removal promises once the node is freed.
use assignment2_c.Prelude.{
  ℕ, ◌+◌, ◌≡◌, ◌<◌, ◌⊎◌, refl, ap, [], ◌∷◌, ◌++◌, inl, inr, if◌then◌else◌, ℤ, Bool-cases,
}
use assignment2_c.Manager.{Adress, null}
use assignment2_c.Manager.Layout.Used.{without}
use assignment2_c.Manager.Layout.Ranges.{In}
use assignment2_c.Memory.{Bytes}
use assignment2_c.Allocator.{Allocator}
use assignment2_c.LinkedList.{ListState, Run, ok, released, is_data}
use assignment2_c.LinkedList.Chain.{Cells, NotIn, Distinct, Chain, IsList}
use assignment2_c.LinkedList.Links.{Chain-without}
use assignment2_c.LinkedList.Read.Results.{find_cell}

-- The list without the first node with the number.
unfoldable pub erase : ℤ → Cells → Cells
erase value [] = []
erase value ((a, d) ∷ cs) = if is_data d value then cs else (a, d) ∷ erase value cs

-- The first node with the number, and what stands before and behind it.
pub record Found (value : ℤ) (cells : Cells) : Type 0 where
  pub before : Cells
  pub adress : Adress
  pub datum : ℕ
  pub after : Cells
  pub whole : cells ≡ before ++ (adress, datum) ∷ after
  pub found_at : find_cell value cells ≡ adress
  pub erased : erase value cells ≡ before ++ after

pub find-cases :
    (value : ℤ) (cells : Cells)
    → ((find_cell value cells ≡ null) × (erase value cells ≡ cells)) ⊎ Found value cells
unfolding find_cell erase
find-cases value [] = inl (refl, refl)
find-cases value ((a, d) ∷ cs) = elim (Bool-cases (is_data d value)) [
  | inl hit ↦ inr (record {
    before = [];
    adress = a;
    datum = d;
    after = cs;
    whole = refl;
    found_at = rw hit;
    erased = rw hit;
  })
  | inr miss ↦ elim (find-cases value cs) [
    | inl (e, f) ↦ inl (rw (miss, e), rw (miss, f))
    | inr f ↦ inr (record {
      before = (a, d) ∷ f.before;
      adress = f.adress;
      datum = f.datum;
      after = f.after;
      whole = ap (λ l. (a, d) ∷ l) f.whole;
      found_at = rw (miss, f.found_at);
      erased = rw (miss, f.erased);
    })
  ]
]

-- The run returns with the list `after` in place of `cells`, and `gone` is the only block that is taken
-- back. The bytes of every block that is no node are kept.
pub record Shrinks (allocator : Allocator) (s : ListState allocator.State) (cells after : Cells)
    (gone : Adress) (r : Run allocator.State (Unit {0})) : Type 0 where
  pub state : ListState allocator.State
  pub returns : r ≡ ok tt state
  pub list : IsList allocator state after
  pub printed : state.printed ≡ s.printed
  pub taken : allocator.owned state.pool ≡ without gone (allocator.owned s.pool)
  pub spared :
      (q m k : ℕ)
      → In q m (allocator.owned s.pool)
      → NotIn q cells
      → k < m
      → allocator.bytes state.pool (q + k) ≡ allocator.bytes s.pool (q + k)

module _ (allocator : Allocator) (s : ListState allocator.State) (cells : Cells)
    (l : IsList allocator s cells) where
  open allocator use {State, bytes, set_bytes, owned}

  -- The last step: the memory `m` holds the list `after`, in which `gone` is not, and `gone` is freed.
  pub shrinks :
      (after : Cells) (m : Bytes) (head gone : Adress) (t : State)
      → Chain (owned s.pool) m head after null
      → Distinct after
      → NotIn gone after
      → ((q n k : ℕ)
          → In q n (owned s.pool)
          → NotIn q cells
          → k < n
          → m (q + k) ≡ bytes s.pool (q + k))
      → allocator.IsSafe t
      → owned t ≡ without gone (owned s.pool)
      → bytes t ≡ m
      → Shrinks allocator s cells after gone
          (ok tt (record s { pool = t; head = head; lock = released }))
  shrinks after m head gone t chain distinct out spare safe e f = record {
    state = record s { pool = t; head = head; lock = released };
    returns = refl;
    list = record {
      safe = safe;
      chain = rw (e, f) (Chain-without (owned s.pool) m gone head after null out chain);
      distinct = distinct;
      unlocked = refl;
    };
    printed = refl;
    taken = e;
    spared = λ q n k i o lt. rw f (spare q n k i o lt);
  }
