-- ===== src/LinkedList/Insert/Append.antt =====
-- `list_insert` puts a new node behind the last one.
use assignment2_c.Prelude.{
  ℕ, ◌≡◌, ◌<◌, sym, ap, some, [], ◌∷◌, ◌++◌, arith, inl, inr, ==_of_ne, ==_of_eq, ℤ, length,
  length-append, last-cases, append_assoc,
}
use assignment2_c.Manager.{Adress, null}
use assignment2_c.Manager.Layout.Used.{Inserted}
use assignment2_c.Memory.{store_word}
use assignment2_c.Allocator.{Allocator}
use assignment2_c.LinkedList.{ListState, released, writing, sizeof_node, to_uint16}
use assignment2_c.LinkedList.Chain.{Cells, IsList, with_lock, at_rest}
use assignment2_c.LinkedList.Links.{Chain-split, Chain-In, In-Inserted, In-new, NotIn-new}
use assignment2_c.LinkedList.Relink.{with_node, Chain-with_node}
use assignment2_c.LinkedList.Read.Results.{In-ne-null}
use assignment2_c.LinkedList.Steps.{
  set_data-first, set_next-later, with_memory, last_loop-append, middle-ne-null,
}
use assignment2_c.LinkedList.Insert.{append_node, link_node, list_insert}
use assignment2_c.LinkedList.Insert.Grows.{Grows, GrowsOrFails, to_uint16-lt, in_front, behind}

-- The block `p` has been allocated for the node.
module _ (allocator : Allocator) (s : ListState allocator.State) (k : ℕ) (value : ℤ) (p : Adress)
    (t : allocator.State) (e : allocator.mem_alloc sizeof_node s.pool ≡ some (p, t))
    (safe : allocator.IsSafe t)
    (new : Inserted (p, sizeof_node) (allocator.owned s.pool) (allocator.owned t))
    (same : allocator.bytes t ≡ allocator.bytes s.pool) where
  open allocator use {State, bytes, set_bytes, owned}

  abbrev written : ListState State
  written =
      with_memory allocator (with_lock s writing) t p
        (with_node (bytes s.pool) p (to_uint16 value) null)

  -- What is left once the node is written.
  start : list_insert allocator k value (with_lock s released) ≡ link_node allocator k p written
  unfolding list_insert append_node
  start =
      let (end, below, r) = allocator.owned_ranges t safe in
      let busy = with_lock s writing in
      let there = In-new (owned s.pool) (owned t) p sizeof_node new in
      let d = to_uint16 value in
      rw (
        e,
        ==_of_ne p null (In-ne-null p (owned t) end r there),
        set_data-first allocator busy t p there d,
        same,
        set_next-later allocator busy t p there (store_word 2 (bytes s.pool) p d) null,
      )

  to_empty :
      IsList allocator s []
      → Grows allocator s []
          ((p, to_uint16 value) ∷ [])
          (list_insert allocator k value (with_lock s released))
  unfolding link_node
  to_empty l =
      rw (start, ==_of_eq s.head null l.chain)
        (in_front allocator s t p (to_uint16 value) safe new (to_uint16-lt value) [] null l
          (sym l.chain) (omega arith))

  to_last :
      (pre : Cells) (a v : ℕ)
      → IsList allocator s (pre ++ (a, v) ∷ [])
      → length pre < k
      → Grows allocator s
          (pre ++ (a, v) ∷ [])
          (pre ++ (a, v) ∷ (p, to_uint16 value) ∷ [])
          (list_insert allocator k value (with_lock s released))
  unfolding link_node
  to_last pre a v l fuel =
      let d = to_uint16 value in
      let node = with_node (bytes s.pool) p d null in
      let cells = pre ++ (a, v) ∷ [] in
      let (end, below, r) = allocator.owned_ranges t safe in
      let (end', below', r') = allocator.owned_ranges s.pool l.safe in
      let there = In-new (owned s.pool) (owned t) p sizeof_node new in
      let out =
        NotIn-new (owned s.pool) (owned t) p sizeof_node 1 end (bytes s.pool) s.head cells null new
          r (omega arith) l.chain in
      let all =
        Chain-In (owned s.pool) (owned t) (bytes s.pool) s.head cells null
          (λ b i. In-Inserted (owned s.pool) (owned t) (p, sizeof_node) b sizeof_node new i)
          l.chain in
      let chain =
        Chain-with_node (owned t) 1 end r (bytes s.pool) p d null s.head cells null there out all in
      let (x, t1, t2) = Chain-split (owned t) (bytes s.pool) s.head pre ((a, v) ∷ []) null all in
      rw
        (
          start,
          ==_of_ne s.head null
              (middle-ne-null (owned s.pool) (bytes s.pool) s.head pre (a, v) [] end' r' l.chain),
          last_loop-append allocator written end (rw (allocator.owned_set node t) r) k s.head pre a
              v (rw (allocator.owned_set node t, allocator.bytes_set node t) chain) fuel,
          set_next-later allocator (with_lock s writing) t a t2.1 node p,
        )
        (behind allocator s t p d safe new (to_uint16-lt value) pre a v [] null l (sym t2.3))

module _ (allocator : Allocator) (s : ListState allocator.State) (cells : Cells) (k : ℕ) (value : ℤ)
    (l : IsList allocator s cells) (fuel : length cells < k) where
  open allocator use {State, bytes, owned}

  appended :
      (p : Adress) (t : State)
      → allocator.mem_alloc sizeof_node s.pool ≡ some (p, t)
      → allocator.IsSafe t
      → Inserted (p, sizeof_node) (owned s.pool) (owned t)
      → bytes t ≡ bytes s.pool
      → Grows allocator s cells
          (cells ++ (p, to_uint16 value) ∷ [])
          (list_insert allocator k value (with_lock s released))
  appended p t e safe new same = elim (last-cases cells) [
    | inl z ↦ rw z (to_empty allocator s k value p t e safe new same (rw z at l))
    | inr (pre, (a, v), z) ↦
        rw (z, append_assoc pre ((a, v) ∷ []) ((p, to_uint16 value) ∷ []))
          (to_last allocator s k value p t e safe new same pre a v (rw z at l)
            (omega (arith, ap length z, length-append pre ((a, v) ∷ []))))
  ]

  -- `list_insert` puts a node with the number, cut to 16 bits, behind the last one, or changes nothing
  -- if there is no block for it.
  pub list_insert-Grows :
      GrowsOrFails allocator s cells
        (λ p. cells ++ (p, to_uint16 value) ∷ [])
        (list_insert allocator k value s)
  unfolding list_insert
  list_insert-Grows =
      let w : s ≡ with_lock s released = ap (with_lock s) l.unlocked in
      elim (allocator.alloc_law sizeof_node s.pool (omega arith) l.safe) [
        | inl e ↦ inl (e, at_rest s l.unlocked (list_insert allocator k value) tt (rw e))
        | inr (p, t, e, safe, new, same) ↦
            let f = ap (list_insert allocator k value) w in
            inr (p, rw f (appended p t e safe new same))
      ]
