-- ===== src/LinkedList/Insert/After.antt =====
-- `list_insert_after` puts a new node behind a node of the list.
use assignment2_c.Prelude.{
  ℕ, ◌+◌, ◌≡◌, ◌≢◌, refl, ap, some, ◌∷◌, ◌++◌, arith, inl, inr, ==_of_ne, ℤ,
}
use assignment2_c.Manager.{Adress, null}
use assignment2_c.Manager.Layout.Used.{Inserted}
use assignment2_c.Manager.Layout.Ranges.{In}
use assignment2_c.Memory.{load_word, store_word}
use assignment2_c.Allocator.{Allocator}
use assignment2_c.LinkedList.{ListState, ok, released, writing, sizeof_node, next_offset, to_uint16}
use assignment2_c.LinkedList.Chain.{Cells, IsList, with_lock, at_rest}
use assignment2_c.LinkedList.Links.{Chain-split, In-Inserted, In-new, load_other, NotIn-new}
use assignment2_c.LinkedList.Relink.{NotIn-append}
use assignment2_c.LinkedList.Read.Results.{In-ne-null}
use assignment2_c.LinkedList.Steps.{set_data-first, set_next-later, get_next-later}
use assignment2_c.LinkedList.Insert.{list_insert_after}
use assignment2_c.LinkedList.Insert.Grows.{Grows, GrowsOrFails, to_uint16-lt, behind}

module _ (allocator : Allocator) (s : ListState allocator.State) (pre : Cells) (a v : ℕ)
    (post : Cells) (value : ℤ) (l : IsList allocator s (pre ++ (a, v) ∷ post)) where
  open allocator use {State, bytes, set_bytes, owned}

  a_there : In a sizeof_node (owned s.pool)
  a_there =
      let (x, t1, t2) =
        Chain-split (owned s.pool) (bytes s.pool) s.head pre ((a, v) ∷ post) null l.chain in
      t2.1

  a-ne-null : a ≢ null
  a-ne-null =
      let (end, below, r) = allocator.owned_ranges s.pool l.safe in
      In-ne-null a (owned s.pool) end r a_there

  after_alloc :
      (p : Adress) (t : State)
      → allocator.mem_alloc sizeof_node s.pool ≡ some (p, t)
      → allocator.IsSafe t
      → Inserted (p, sizeof_node) (owned s.pool) (owned t)
      → bytes t ≡ bytes s.pool
      → Grows allocator s
          (pre ++ (a, v) ∷ post)
          (pre ++ (a, v) ∷ (p, to_uint16 value) ∷ post)
          (list_insert_after allocator a value (with_lock s released))
  unfolding list_insert_after
  after_alloc p t e safe new same =
      let (end, below, r) = allocator.owned_ranges t safe in
      let busy = with_lock s writing in
      let there = In-new (owned s.pool) (owned t) p sizeof_node new in
      let a_still =
        In-Inserted (owned s.pool) (owned t) (p, sizeof_node) a sizeof_node new a_there in
      let d = to_uint16 value in
      let m = store_word 2 (bytes s.pool) p d in
      let out =
        NotIn-new (owned s.pool) (owned t) p sizeof_node 1 end (bytes s.pool) s.head
          (pre ++ (a, v) ∷ post) null new r (omega arith) l.chain in
      let z : p + 0 ≡ p = omega arith in
      let kept_next : load_word 8 m (a + next_offset)
          ≡ load_word 8 (bytes s.pool) (a + next_offset) =
        rw z at (
          load_other (owned t) 1 end r 8 2 (bytes s.pool) p a next_offset 0 d there a_still
            (NotIn-append p pre ((a, v) ∷ post) out).1.0 (omega arith) (omega arith)) in
      rw
        (
          ==_of_ne a null a-ne-null,
          e,
          ==_of_ne p null (In-ne-null p (owned t) end r there),
          set_data-first allocator busy t p there d,
          same,
          get_next-later allocator busy t a a_still m,
          set_next-later allocator busy t p there m (load_word 8 m (a + next_offset)),
          set_next-later allocator busy t a a_still
              (store_word 8 m (p + next_offset) (load_word 8 m (a + next_offset))) p,
        )
        (behind allocator s t p d safe new (to_uint16-lt value) pre a v post
          (load_word 8 m (a + next_offset)) l kept_next)

  -- `list_insert_after` of a node of the list puts a node with the number behind it, cut to 16 bits, or
  -- changes nothing if there is no block for it.
  pub list_insert_after-Grows :
      GrowsOrFails allocator s
        (pre ++ (a, v) ∷ post)
        (λ p. pre ++ (a, v) ∷ (p, to_uint16 value) ∷ post)
        (list_insert_after allocator a value s)
  unfolding list_insert_after
  list_insert_after-Grows =
      let w : s ≡ with_lock s released = ap (with_lock s) l.unlocked in
      elim (allocator.alloc_law sizeof_node s.pool (omega arith) l.safe) [
        | inl e ↦ inl (
          e,
          at_rest s l.unlocked (list_insert_after allocator a value) tt
              (rw (==_of_ne a null a-ne-null, e)),
        )
        | inr (p, t, e, safe, new, same) ↦
            let f = ap (list_insert_after allocator a value) w in
            inr (p, rw f (after_alloc p t e safe new same))
      ]

-- `list_insert_after` of `NULL` does nothing.
pub list_insert_after-null :
    (allocator : Allocator) (s : ListState allocator.State) (value : ℤ)
    → list_insert_after allocator null value s ≡ ok tt s
unfolding list_insert_after
list_insert_after-null allocator s value = refl
