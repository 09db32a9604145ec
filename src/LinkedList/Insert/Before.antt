-- ===== src/LinkedList/Insert/Before.antt =====
-- `list_insert_before` puts a new node before a node of the list.
use assignment2_c.Prelude.{
  ℕ, ◌+◌, ◌≡◌, ◌≢◌, ◌<◌, ◌⊎◌, refl, false, sym, ap, ◌∙◌, some, List, [], ◌∷◌, ◌++◌, arith, inl, inr,
  ◌==◌, ==_of_ne, ==_of_eq, ℤ, length, append_assoc, Bool-cases, ne_of_==,
}
use assignment2_c.Manager.{Adress, null}
use assignment2_c.Manager.Layout.Used.{Ranges, Inserted}
use assignment2_c.Manager.Layout.Ranges.{In}
use assignment2_c.Memory.{load_word, store_word}
use assignment2_c.Memory.Words.{Fits-pointer}
use assignment2_c.Allocator.{Allocator}
use assignment2_c.LinkedList.{
  ListState, ok, fault, released, writing, sizeof_node, next_offset, to_uint16, has_node, set_data,
}
use assignment2_c.LinkedList.Chain.{Cells, NotIn, IsList, with_lock, at_rest, In-bounds}
use assignment2_c.LinkedList.Links.{Chain-split, In-Inserted, In-new}
use assignment2_c.LinkedList.Relink.{Distinct-split}
use assignment2_c.LinkedList.Read.Results.{In-ne-null}
use assignment2_c.LinkedList.Steps.{
  set_data-first, set_next-later, previous_loop-before, previous_loop-absent, start-ne,
  start-ne_null,
}
use assignment2_c.LinkedList.Insert.{list_insert_before, insert_head, insert_inside, insert_behind}
use assignment2_c.LinkedList.Insert.Grows.{Grows, GrowsOrFails, to_uint16-lt, in_front, behind}

-- No block that is handed out is at `NULL`.
has_node-null :
    (us : List (Adress × ℕ)) (b end : Adress) → 0 < b → Ranges b us end → has_node null us ≡ false
has_node-null [] b end pos r = refl
has_node-null ((q, n) ∷ us) b end pos r =
    rw (==_of_ne q null (λ e. absurd (omega (arith, r.0, pos, e))))
      (has_node-null us (q + n) end (omega (arith, r.0, pos)) r.1)

-- The node is the first.
module _ (allocator : Allocator) (s : ListState allocator.State) (a v : ℕ) (cs : Cells) (k : ℕ)
    (value : ℤ) (l : IsList allocator s ((a, v) ∷ cs)) where
  open allocator use {State, bytes, owned}

  a-ne-null : a ≢ null
  a-ne-null =
      let (end, below, r) = allocator.owned_ranges s.pool l.safe in
      In-ne-null a (owned s.pool) end r l.chain.1

  before_first :
      (p : Adress) (t : State)
      → allocator.mem_alloc sizeof_node s.pool ≡ some (p, t)
      → allocator.IsSafe t
      → Inserted (p, sizeof_node) (owned s.pool) (owned t)
      → bytes t ≡ bytes s.pool
      → Grows allocator s
          ((a, v) ∷ cs)
          ((p, to_uint16 value) ∷ (a, v) ∷ cs)
          (list_insert_before allocator k a value (with_lock s released))
  unfolding list_insert_before insert_head
  before_first p t e safe new same =
      let (end, below, r) = allocator.owned_ranges s.pool l.safe in
      let busy = with_lock s writing in
      let there = In-new (owned s.pool) (owned t) p sizeof_node new in
      let d = to_uint16 value in
      let bounds = In-bounds (owned s.pool) a sizeof_node 1 end r l.chain.1 in
      rw
        (
          ==_of_ne a null a-ne-null,
          ==_of_eq s.head a l.chain.0,
          e,
          set_data-first allocator busy t p there d,
          same,
          set_next-later allocator busy t p there (store_word 2 (bytes s.pool) p d) s.head,
        )
        (in_front allocator s t p d safe new (to_uint16-lt value) ((a, v) ∷ cs) s.head l refl
          (Fits-pointer s.head (omega (arith, below, bounds, l.chain.0))))

  faults :
      allocator.mem_alloc sizeof_node s.pool ≡ some (null, s.pool)
      → list_insert_before allocator k a value (with_lock s released) ≡ fault
  unfolding list_insert_before insert_head set_data
  faults e =
      let (end, below, r) = allocator.owned_ranges s.pool l.safe in
      rw (
        ==_of_ne a null a-ne-null,
        ==_of_eq s.head a l.chain.0,
        e,
        has_node-null (owned s.pool) 1 end (omega arith) r,
      )

  -- `list_insert_before` of the first node puts a node with the number, cut to 16 bits, in front of the
  -- list. If there is no block for it, it writes through `NULL`.
  pub list_insert_before-first :
      ((allocator.mem_alloc sizeof_node s.pool ≡ some (null, s.pool))
        × (list_insert_before allocator k a value s ≡ fault))
      ⊎ ((p : Adress) × Grows allocator s
            ((a, v) ∷ cs)
            ((p, to_uint16 value) ∷ (a, v) ∷ cs)
            (list_insert_before allocator k a value s))
  list_insert_before-first =
      let w : s ≡ with_lock s released = ap (with_lock s) l.unlocked in
      let f = ap (list_insert_before allocator k a value) w in
      elim (allocator.alloc_law sizeof_node s.pool (omega arith) l.safe) [
        | inl e ↦ inl (e, f ∙ faults e)
        | inr (p, t, e, safe, new, same) ↦ inr (p, rw f (before_first p t e safe new same))
      ]

-- The node at `b` is behind another, the one at `a`.
module _ (allocator : Allocator) (s : ListState allocator.State) (pre : Cells) (a v b w : ℕ)
    (post : Cells) (k : ℕ) (value : ℤ) (l : IsList allocator s (pre ++ (a, v) ∷ (b, w) ∷ post))
    (fuel : length pre < k) where
  open allocator use {State, bytes, owned}

  links :
      In a sizeof_node (owned s.pool)
      × (load_word 8 (bytes s.pool) (a + next_offset) ≡ b)
      × In b sizeof_node (owned s.pool)
  links =
      let (x, t1, t2) =
        Chain-split (owned s.pool) (bytes s.pool) s.head pre ((a, v) ∷ (b, w) ∷ post) null
          l.chain in
      (t2.1, t2.3.0, t2.3.1)

  b-ne-null : b ≢ null
  b-ne-null =
      let (end, below, r) = allocator.owned_ranges s.pool l.safe in
      In-ne-null b (owned s.pool) end r links.2

  not_before : NotIn b (pre ++ (a, v) ∷ [])
  not_before =
      (Distinct-split (pre ++ (a, v) ∷ []) b w post
        (rw (append_assoc pre ((a, v) ∷ []) ((b, w) ∷ post)) l.distinct)).0

  -- What is left once the node before is found.
  at_previous :
      list_insert_before allocator k b value (with_lock s released)
      ≡ insert_behind allocator a b value (with_lock s writing)
  unfolding list_insert_before insert_inside
  at_previous =
      let (end, below, r) = allocator.owned_ranges s.pool l.safe in
      rw (
        ==_of_ne b null b-ne-null,
        ==_of_ne s.head b (
            start-ne (owned s.pool) (bytes s.pool) s.head b pre (a, v) ((b, w) ∷ post) l.chain
              not_before),
        previous_loop-before allocator (with_lock s writing) end r k s.head pre a v b w post l.chain
            not_before fuel,
        ==_of_ne a null (In-ne-null a (owned s.pool) end r links.0),
      )

  between :
      (p : Adress) (t : State)
      → allocator.mem_alloc sizeof_node s.pool ≡ some (p, t)
      → allocator.IsSafe t
      → Inserted (p, sizeof_node) (owned s.pool) (owned t)
      → bytes t ≡ bytes s.pool
      → Grows allocator s
          (pre ++ (a, v) ∷ (b, w) ∷ post)
          (pre ++ (a, v) ∷ (p, to_uint16 value) ∷ (b, w) ∷ post)
          (list_insert_before allocator k b value (with_lock s released))
  unfolding insert_behind
  between p t e safe new same =
      let (end, below, r) = allocator.owned_ranges t safe in
      let busy = with_lock s writing in
      let there = In-new (owned s.pool) (owned t) p sizeof_node new in
      let a_still =
        In-Inserted (owned s.pool) (owned t) (p, sizeof_node) a sizeof_node new links.0 in
      let d = to_uint16 value in
      let m = store_word 2 (bytes s.pool) p d in
      rw
        (
          at_previous,
          e,
          ==_of_ne p null (In-ne-null p (owned t) end r there),
          set_data-first allocator busy t p there d,
          same,
          set_next-later allocator busy t p there m b,
          set_next-later allocator busy t a a_still (store_word 8 m (p + next_offset) b) p,
        )
        (behind allocator s t p d safe new (to_uint16-lt value) pre a v ((b, w) ∷ post) b l
          (sym links.1))

  -- `list_insert_before` of a node that is not the first puts a node with the number, cut to 16 bits,
  -- before it, or changes nothing if there is no block for it.
  pub list_insert_before-Grows :
      GrowsOrFails allocator s
        (pre ++ (a, v) ∷ (b, w) ∷ post)
        (λ p. pre ++ (a, v) ∷ (p, to_uint16 value) ∷ (b, w) ∷ post)
        (list_insert_before allocator k b value s)
  unfolding insert_behind
  list_insert_before-Grows =
      let x : s ≡ with_lock s released = ap (with_lock s) l.unlocked in
      elim (allocator.alloc_law sizeof_node s.pool (omega arith) l.safe) [
        | inl e ↦ inl (
          e,
          at_rest s l.unlocked (list_insert_before allocator k b value) tt (rw (at_previous, e)),
        )
        | inr (p, t, e, safe, new, same) ↦
            let f = ap (list_insert_before allocator k b value) x in
            inr (p, rw f (between p t e safe new same))
      ]

-- `list_insert_before` changes nothing for `NULL`, and for an address that is no node of the list.
pub list_insert_before-absent :
    (allocator : Allocator) (s : ListState allocator.State) (cells : Cells) (k : ℕ)
    (target : Adress) (value : ℤ)
    → IsList allocator s cells
    → length cells < k
    → NotIn target cells
    → list_insert_before allocator k target value s ≡ ok tt s
unfolding list_insert_before insert_inside
list_insert_before-absent allocator s cells k target value l fuel out =
    elim (Bool-cases (target == null)) [
      | inl missing ↦ rw missing
      | inr some_given ↦
          let ne : target ≢ null = ne_of_== target null some_given in
          let (end, below, r) = allocator.owned_ranges s.pool l.safe in
          at_rest s l.unlocked (list_insert_before allocator k target value) tt (
            rw (
              some_given,
              ==_of_ne s.head target (
                  start-ne_null (allocator.owned s.pool) (allocator.bytes s.pool) s.head target
                    cells l.chain out ne),
              previous_loop-absent allocator (with_lock s writing) end r k s.head cells target
                  l.chain out ne fuel,
            ))
    ]
