-- ===== src/LinkedList/Remove/Delete.antt =====
-- `list_delete` takes the first node with the number out of the list, and frees it.
use assignment2_c.Prelude.{
  ℕ, ◌+◌, ◌≡◌, ◌<◌, refl, sym, ap, ◌∙◌, some, [], ◌∷◌, ◌++◌, arith, inl, inr, ◌==◌, ==_of_ne,
  ==_of_eq, eq_of_==, ℤ, length, length-append, last-cases, append_assoc, Bool-cases,
}
use assignment2_c.Manager.{Adress, null}
use assignment2_c.Manager.Layout.Used.{without-Ranges}
use assignment2_c.Manager.Layout.Ranges.{In}
use assignment2_c.Memory.{Bytes, load_word, store_word}
use assignment2_c.Memory.Words.{load-Fits, store_word-outside}
use assignment2_c.Allocator.{Allocator}
use assignment2_c.LinkedList.{ListState, ok, released, writing, sizeof_node, next_offset}
use assignment2_c.LinkedList.Chain.{Cells, NotIn, Distinct, Chain, IsList, with_lock, get_next-In}
use assignment2_c.LinkedList.Links.{Chain-split, In-apart}
use assignment2_c.LinkedList.Relink.{NotIn-append, NotIn-join, Distinct-split, Chain-relink}
use assignment2_c.LinkedList.Read.Results.{In-ne-null, find_cell, search_loop-find_cell}
use assignment2_c.LinkedList.Steps.{set_next-first, previous_loop-before, start-ne}
use assignment2_c.LinkedList.Remove.{list_delete, delete_node, remove_head, remove_inside}
use assignment2_c.LinkedList.Remove.Shrinks.{erase, find-cases, Shrinks, shrinks}

-- The node is the first.
module _ (allocator : Allocator) (s : ListState allocator.State) (b w : ℕ) (post : Cells)
    (l : IsList allocator s ((b, w) ∷ post)) where
  open allocator use {State, bytes, set_bytes, owned}

  remove_head-Shrinks :
      Shrinks allocator s ((b, w) ∷ post) post b (remove_head allocator b (with_lock s writing))
  unfolding remove_head
  remove_head-Shrinks =
      let (t, e, safe, f, g) = allocator.free_law b s.pool l.safe in
      rw (get_next-In allocator (with_lock s writing) b l.chain.1, e)
        (shrinks allocator s ((b, w) ∷ post) l post (bytes s.pool)
          (load_word 8 (bytes s.pool) (b + next_offset)) b t l.chain.3 l.distinct.1 l.distinct.0
          (λ q n k i o lt. refl) safe f g)

-- The node at `b` is behind another, the one at `a`.
module _ (allocator : Allocator) (s : ListState allocator.State) (pre : Cells) (a v b w : ℕ)
    (post : Cells) (l : IsList allocator s (pre ++ (a, v) ∷ (b, w) ∷ post)) where
  open allocator use {State, bytes, set_bytes, owned}

  a_there : In a sizeof_node (owned s.pool)
  a_there =
      let (x, t1, t2) =
        Chain-split (owned s.pool) (bytes s.pool) s.head pre ((a, v) ∷ (b, w) ∷ post) null
          l.chain in
      t2.1

  b_there : In b sizeof_node (owned s.pool)
  b_there =
      let (x, t1, t2) =
        Chain-split (owned s.pool) (bytes s.pool) s.head pre ((a, v) ∷ (b, w) ∷ post) null
          l.chain in
      t2.3.1

  splits : NotIn b (pre ++ (a, v) ∷ []) × NotIn b post × Distinct ((pre ++ (a, v) ∷ []) ++ post)
  splits =
      Distinct-split (pre ++ (a, v) ∷ []) b w post
        (rw (append_assoc pre ((a, v) ∷ []) ((b, w) ∷ post)) l.distinct)

  abbrev next_of_b : Adress
  next_of_b = load_word 8 (bytes s.pool) (b + next_offset)

  abbrev unlinked : Bytes
  unlinked = store_word 8 (bytes s.pool) (a + next_offset) next_of_b

  unlinked-Chain : Chain (owned s.pool) unlinked s.head (pre ++ (a, v) ∷ post) null
  unlinked-Chain =
      let (end, below, r) = allocator.owned_ranges s.pool l.safe in
      let (x, t1, t2) =
        Chain-split (owned s.pool) (bytes s.pool) s.head pre ((a, v) ∷ (b, w) ∷ post) null
          l.chain in
      let (a_pre, a_post, d) = Distinct-split pre a v ((b, w) ∷ post) l.distinct in
      Chain-relink (owned s.pool) 1 end r (bytes s.pool) s.head a v next_of_b pre post null t2.1
        t2.2 a_pre a_post.1 (load-Fits 8 (bytes s.pool) (b + next_offset)) (rw t2.0 at t1) t2.3.3

  unlinked_spared :
      (q n k : ℕ)
      → In q n (owned s.pool)
      → NotIn q (pre ++ (a, v) ∷ (b, w) ∷ post)
      → k < n
      → unlinked (q + k) ≡ bytes s.pool (q + k)
  unlinked_spared q n k i o lt =
      let (end, below, r) = allocator.owned_ranges s.pool l.safe in
      let ne = (NotIn-append q pre ((a, v) ∷ (b, w) ∷ post) o).1.0 in
      store_word-outside 8 (bytes s.pool) (a + next_offset) next_of_b (q + k)
        (elim (In-apart (owned s.pool) a sizeof_node q n 1 end r a_there i (λ z. ne (sym z))) [
          | inl h ↦ inr (omega arith)
          | inr h ↦ inl (omega arith)
        ])

  -- Whether the node is the last or not, its pointer is handed on.
  run_inside :
      (k : ℕ) (t : State)
      → length pre < k
      → allocator.mem_free b (set_bytes unlinked s.pool) ≡ some t
      → remove_inside allocator k s.head b (with_lock s writing)
        ≡ ok tt (record s { pool = t; lock = released })
  unfolding remove_inside
  run_inside k t fuel e =
      let (end, below, r) = allocator.owned_ranges s.pool l.safe in
      let busy = with_lock s writing in
      rw
        (
          previous_loop-before allocator busy end r k s.head pre a v b w post l.chain splits.0 fuel,
          get_next-In allocator busy b b_there,
        )
        (elim (Bool-cases (next_of_b == null)) [
          | inl last ↦
              let z : next_of_b ≡ null = eq_of_== next_of_b null last in
              let f : allocator.mem_free b
                    (set_bytes (store_word 8 (bytes s.pool) (a + next_offset) null) s.pool)
                  ≡ some t =
                rw z at e in
              rw (last, set_next-first allocator busy s.pool a a_there null, f)
          | inr middle ↦ rw (
            middle,
            get_next-In allocator busy b b_there,
            set_next-first allocator busy s.pool a a_there next_of_b,
            e,
          )
        ])

  remove_inside-Shrinks :
      (k : ℕ)
      → length pre < k
      → Shrinks allocator s
          (pre ++ (a, v) ∷ (b, w) ∷ post)
          (pre ++ (a, v) ∷ post)
          b
          (remove_inside allocator k s.head b (with_lock s writing))
  remove_inside-Shrinks k fuel =
      let m = unlinked in
      let (t, e, safe, f, g) =
        allocator.free_law b (set_bytes m s.pool) (allocator.set_IsSafe m s.pool l.safe) in
      let (out, out', d) = splits in
      let apart : NotIn b (pre ++ (a, v) ∷ post) =
        rw (append_assoc pre ((a, v) ∷ []) post) at
          (NotIn-join b (pre ++ (a, v) ∷ []) post out out') in
      rw (run_inside k t fuel e) (
        shrinks allocator s (pre ++ (a, v) ∷ (b, w) ∷ post) l (pre ++ (a, v) ∷ post) m s.head b t
          unlinked-Chain (rw (append_assoc pre ((a, v) ∷ []) post) at d) apart unlinked_spared safe
          (rw (allocator.owned_set m s.pool) at f) (rw (allocator.bytes_set m s.pool) at g))

module _ (allocator : Allocator) (s : ListState allocator.State) (k : ℕ) (value : ℤ) where
  open allocator use {State, bytes, owned}

  -- What follows the search.
  delete_at :
      (cells : Cells)
      → IsList allocator s cells
      → length cells < k
      → list_delete allocator k value (with_lock s released)
        ≡ delete_node allocator k s.head (find_cell value cells) (with_lock s writing)
  unfolding list_delete
  delete_at cells l fuel =
      let (end, below, r) = allocator.owned_ranges s.pool l.safe in
      rw (
        search_loop-find_cell allocator (with_lock s writing) end r k s.head cells value l.chain
          fuel)

  delete_first :
      (b w : ℕ) (post : Cells)
      → IsList allocator s ((b, w) ∷ post)
      → Shrinks allocator s
          ((b, w) ∷ post)
          post
          b
          (delete_node allocator k s.head b (with_lock s writing))
  unfolding delete_node
  delete_first b w post l =
      let (end, below, r) = allocator.owned_ranges s.pool l.safe in
      rw
        (==_of_ne b null (In-ne-null b (owned s.pool) end r l.chain.1), ==_of_eq s.head b l.chain.0)
        (remove_head-Shrinks allocator s b w post l)

  delete_later :
      (pre : Cells) (a v b w : ℕ) (post : Cells)
      → IsList allocator s (pre ++ (a, v) ∷ (b, w) ∷ post)
      → length pre < k
      → Shrinks allocator s
          (pre ++ (a, v) ∷ (b, w) ∷ post)
          (pre ++ (a, v) ∷ post)
          b
          (delete_node allocator k s.head b (with_lock s writing))
  unfolding delete_node
  delete_later pre a v b w post l fuel =
      let (end, below, r) = allocator.owned_ranges s.pool l.safe in
      rw
        (
          ==_of_ne b null
              (In-ne-null b (owned s.pool) end r (b_there allocator s pre a v b w post l)),
          ==_of_ne s.head b (
              start-ne (owned s.pool) (bytes s.pool) s.head b pre (a, v) ((b, w) ∷ post) l.chain
                (splits allocator s pre a v b w post l).0),
        )
        (remove_inside-Shrinks allocator s pre a v b w post l k fuel)

  delete_found :
      (pre : Cells) (b w : ℕ) (post : Cells)
      → IsList allocator s (pre ++ (b, w) ∷ post)
      → length (pre ++ (b, w) ∷ post) < k
      → Shrinks allocator s
          (pre ++ (b, w) ∷ post)
          (pre ++ post)
          b
          (delete_node allocator k s.head b (with_lock s writing))
  delete_found pre b w post l fuel = elim (last-cases pre) [
    | inl z ↦ rw z (delete_first b w post (rw z at l))
    | inr (ys, (a, v), z) ↦
        rw (z, append_assoc ys ((a, v) ∷ []) ((b, w) ∷ post), append_assoc ys ((a, v) ∷ []) post)
          (delete_later ys a v b w post
            (rw (append_assoc ys ((a, v) ∷ []) ((b, w) ∷ post)) at (rw z at l))
            (omega (
              arith,
              fuel,
              length-append pre ((b, w) ∷ post),
              ap length z,
              length-append ys ((a, v) ∷ []),
            )))
  ]

  nothing_found :
      (cells : Cells)
      → IsList allocator s cells
      → Shrinks allocator s cells cells null
          (delete_node allocator k s.head null (with_lock s writing))
  unfolding delete_node
  nothing_found cells l =
      let (end, below, r) = allocator.owned_ranges s.pool l.safe in
      record {
        state = with_lock s released;
        returns = refl;
        list = record { safe = l.safe; chain = l.chain; distinct = l.distinct; unlocked = refl };
        printed = refl;
        taken = sym (without-Ranges (owned s.pool) null 1 end (omega arith) r);
        spared = λ q n i out here lt. refl;
      }

  -- `list_delete` takes the first node with the number out of the list and frees it. If there is none,
  -- nothing changes.
  pub list_delete-Shrinks :
      (cells : Cells)
      → IsList allocator s cells
      → length cells < k
      → Shrinks allocator s cells
          (erase value cells)
          (find_cell value cells)
          (list_delete allocator k value s)
  list_delete-Shrinks cells l fuel =
      let w : s ≡ with_lock s released = ap (with_lock s) l.unlocked in
      let e : list_delete allocator k value s
          ≡ delete_node allocator k s.head (find_cell value cells) (with_lock s writing) =
        ap (list_delete allocator k value) w ∙ delete_at cells l fuel in
      rw e (elim (find-cases value cells) [
        | inl (f, g) ↦ rw (f, g) (nothing_found cells l)
        | inr f ↦
            rw (f.found_at, f.erased, f.whole)
              (delete_found f.before f.adress f.datum f.after (rw f.whole at l)
                (rw f.whole at fuel))
      ])
