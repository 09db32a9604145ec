-- ===== src/LinkedList/Chain.antt =====
-- What a linked list stands for: its nodes in order, each with its address and its number.
use assignment2_c.Prelude.{
  ℕ, ◌+◌, ◌≡◌, ◌≢◌, ◌≤◌, sym, ap, ◌∙◌, true, List, [], ◌∷◌, arith, inl, inr, ==_self,
}
use assignment2_c.Manager.{Adress, null}
use assignment2_c.Manager.Layout.Used.{Ranges}
use assignment2_c.Manager.Layout.Ranges.{In}
use assignment2_c.Memory.{Bytes, load_word}
use assignment2_c.Allocator.{Allocator}
use assignment2_c.LinkedList.{
  ListState, Cmd, RwLock, ok, released, sizeof_node, next_offset, has_node, get_data, get_next,
}

abbrev pub Cells : Type 0
Cells = List (Adress × ℕ)

abbrev pub NotIn : Adress → Cells → Type 0
NotIn a [] = Unit {0}
NotIn a ((b, v) ∷ cs) = (a ≢ b) × NotIn a cs

abbrev pub Distinct : Cells → Type 0
Distinct [] = Unit {0}
Distinct ((a, v) ∷ cs) = NotIn a cs × Distinct cs

-- From `p` the pointers lead through the nodes `cs` to `q`, and each node is a block that is handed
-- out.
abbrev pub Chain : List (Adress × ℕ) → Bytes → Adress → Cells → Adress → Type 0
Chain us m p [] q = p ≡ q
Chain us m p ((a, v) ∷ cs) q =
    (p ≡ a)
    × In a sizeof_node us
    × (load_word 2 m a ≡ v)
    × Chain us m (load_word 8 m (a + next_offset)) cs q

-- A state between two calls, with the list `cells`.
pub record IsList (allocator : Allocator) (s : ListState allocator.State) (cells : Cells)
    : Type 0 where
  pub safe : allocator.IsSafe s.pool
  pub chain : Chain (allocator.owned s.pool) (allocator.bytes s.pool) s.head cells null
  pub distinct : Distinct cells
  pub unlocked : s.lock ≡ released

-- A state is itself with the lock released, so a call may be computed there.
abbrev pub with_lock : {S : Type 0} → ListState S → RwLock → ListState S
with_lock s l = record s { lock = l }

pub at_rest :
    {S A : Type 0} (s : ListState S)
    → s.lock ≡ released
    → (f : Cmd S A) (a : A) → f (with_lock s released) ≡ ok a (with_lock s released)
    → f s ≡ ok a s
at_rest s e f a h =
    let w : s ≡ with_lock s released = ap (with_lock s) e in ap f w ∙ h ∙ ap (ok a) (sym w)

pub at_rest_to :
    {S A : Type 0} (s : ListState S)
    → s.lock ≡ released
    → (f : Cmd S A) (a : A) (change : ListState S → ListState S)
    → f (with_lock s released) ≡ ok a (change (with_lock s released))
    → f s ≡ ok a (change s)
at_rest_to s e f a change h =
    let w : s ≡ with_lock s released = ap (with_lock s) e in
    ap f w ∙ h ∙ ap (λ u. ok a (change u)) (sym w)

pub has_node-In : (p : Adress) (us : List (Adress × ℕ)) → In p sizeof_node us → has_node p us ≡ true
has_node-In p [] i = absurd i
has_node-In p ((q, n) ∷ us) (inl (e, f)) = rw (e, ==_self q, ← f)
has_node-In p ((q, n) ∷ us) (inr i) = ground (arith, has_node-In p us i)

-- A block that is handed out begins behind `a`, and ends in front of `end`.
pub In-bounds :
    (us : List (Adress × ℕ)) (p n a end : Adress)
    → Ranges a us end
    → In p n us
    → (a ≤ p) × (p + n ≤ end)
In-bounds [] p n a end r i = absurd i
In-bounds ((q, m) ∷ us) p n a end r (inl (e, f)) =
    (omega arith, Ranges-le us (p + n) end (rw (e, f) r.1))
  where
    Ranges-le : (us : List (Adress × ℕ)) (a end : Adress) → Ranges a us end → a ≤ end
    Ranges-le [] a end r = r
    Ranges-le ((q, m) ∷ us) a end r = omega (arith, Ranges-le us (q + m) end r.1)
In-bounds ((q, m) ∷ us) p n a end r (inr i) =
    let b = In-bounds us p n (q + m) end r.1 i in (omega (arith, b.0), b.1)

module _ (allocator : Allocator) (s : ListState allocator.State) (p : Adress) where
  open allocator use {bytes, owned}

  pub get_data-In :
      In p sizeof_node (owned s.pool) → get_data allocator p s ≡ ok (load_word 2 (bytes s.pool) p) s
  unfolding get_data
  get_data-In i = rw (has_node-In p (owned s.pool) i)

  pub get_next-In :
      In p sizeof_node (owned s.pool)
      → get_next allocator p s ≡ ok (load_word 8 (bytes s.pool) (p + next_offset)) s
  unfolding get_next
  get_next-In i = rw (has_node-In p (owned s.pool) i)
