-- ===== src/LinkedList/RoundTrip.antt =====
-- What is inserted is found, and can be taken out again.
use assignment2_c.Prelude.{
  ℕ, suc, ◌^◌, ◌≡◌, ◌<◌, ◌⊎◌, refl, ◌∙◌, Bool, true, false, some, [], ◌∷◌, ◌++◌, arith, inl, inr,
  ltb, if◌then◌else◌, ℤ, pos, negsuc, length, length-append,
}
use assignment2_c.Manager.{Adress, null}
use assignment2_c.Allocator.{Allocator}
use assignment2_c.LinkedList.{ListState, ok, sizeof_node, to_uint16, is_data}
use assignment2_c.LinkedList.Chain.{Cells, IsList}
use assignment2_c.LinkedList.Read.{list_search}
use assignment2_c.LinkedList.Read.Results.{find_cell, list_search-find_cell}
use assignment2_c.LinkedList.Insert.{list_insert}
use assignment2_c.LinkedList.Insert.Append.{list_insert-Grows}
use assignment2_c.LinkedList.Remove.{list_delete}
use assignment2_c.LinkedList.Remove.Shrinks.{erase}
use assignment2_c.LinkedList.Remove.Delete.{list_delete-Shrinks}

-- The `int` is a `uint16_t`.
abbrev pub is_uint16 : ℤ → Bool
is_uint16 (pos n) = ltb n (2 ^ 16)
is_uint16 (negsuc n) = false

is_data-to_uint16 : (value : ℤ) → is_data (to_uint16 value) value ≡ is_uint16 value
is_data-to_uint16 (pos n) = ground arith
is_data-to_uint16 (negsuc n) = refl

-- No node has the number.
abbrev pub Lacks : ℤ → Cells → Type 0
Lacks value [] = Unit {0}
Lacks value ((a, d) ∷ cs) = (is_data d value ≡ false) × Lacks value cs

find_cell-append :
    (value : ℤ) (cells : Cells) (p d : ℕ)
    → Lacks value cells
    → find_cell value (cells ++ (p, d) ∷ []) ≡ (if is_data d value then p else null)
unfolding find_cell
find_cell-append value [] p d h = refl
find_cell-append value ((a, v) ∷ cs) p d h = rw h.0 (find_cell-append value cs p d h.1)

erase-append :
    (value : ℤ) (cells : Cells) (p d : ℕ)
    → Lacks value cells
    → is_data d value ≡ true
    → erase value (cells ++ (p, d) ∷ []) ≡ cells
unfolding erase
erase-append value [] p d h e = rw e
erase-append value ((a, v) ∷ cs) p d h e = rw (h.0, erase-append value cs p d h.1 e)

erase-noop : (value : ℤ) (cells : Cells) → Lacks value cells → erase value cells ≡ cells
unfolding erase
erase-noop value [] h = refl
erase-noop value ((a, v) ∷ cs) h = rw (h.0, erase-noop value cs h.1)

module _ (allocator : Allocator) (s : ListState allocator.State) (cells : Cells) (k : ℕ) (value : ℤ)
    (l : IsList allocator s cells) (fuel : length cells < k) (lacks : Lacks value cells) where
  open allocator use {State}

  -- A number that is not in the list: `list_insert` of it fails for want of a block, with nothing
  -- changed; or `list_search` then finds the new node, or finds nothing if the number is no `uint16_t`.
  pub list_search-list_insert :
      ((allocator.mem_alloc sizeof_node s.pool ≡ some (null, s.pool))
        × (list_insert allocator k value s ≡ ok tt s))
      ⊎ ((p : Adress) × (t : ListState State) × (list_insert allocator k value s ≡ ok tt t)
          × (list_search allocator (suc k) value t ≡ ok (if is_uint16 value then p else null) t)
          × IsList allocator t (cells ++ (p, to_uint16 value) ∷ []))
  list_search-list_insert = elim (list_insert-Grows allocator s cells k value l fuel) [
    | inl fails ↦ inl fails
    | inr (p, g) ↦ inr (
      p,
      g.state,
      g.returns,
      rw (← is_data-to_uint16 value, ← find_cell-append value cells p (to_uint16 value) lacks)
          (list_search-find_cell allocator g.state (cells ++ (p, to_uint16 value) ∷ []) (suc k)
            g.list (omega (arith, length-append cells ((p, to_uint16 value) ∷ []))) value),
      g.list,
    )
  ]

  -- A `uint16_t` that is not in the list: after `list_insert` of it, `list_delete` of it leads back to
  -- the same nodes, whether there was a block for the new one or not.
  pub list_delete-list_insert :
      is_uint16 value ≡ true
      → (t : ListState State) × (u : ListState State) × (list_insert allocator k value s ≡ ok tt t)
        × (list_delete allocator (suc k) value t ≡ ok tt u)
        × IsList allocator u cells
  list_delete-list_insert fits = elim (list_insert-Grows allocator s cells k value l fuel) [
    | inl (none_left, same) ↦
        let d = list_delete-Shrinks allocator s (suc k) value cells l (omega arith) in
        (s, d.state, same, d.returns, rw (erase-noop value cells lacks) at d.list)
    | inr (p, g) ↦
        let long = cells ++ (p, to_uint16 value) ∷ [] in
        let d =
          list_delete-Shrinks allocator g.state (suc k) value long g.list
            (omega (arith, length-append cells ((p, to_uint16 value) ∷ []))) in
        (
          g.state,
          d.state,
          g.returns,
          d.returns,
          rw (erase-append value cells p (to_uint16 value) lacks (is_data-to_uint16 value ∙ fits))
              at d.list,
        )
  ]
