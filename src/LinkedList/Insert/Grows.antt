-- ===== src/LinkedList/Insert/Grows.antt =====
-- What an insertion promises, once the new node is written and linked.
use assignment2_c.Prelude.{
  ℕ, ◌+◌, ◌^◌, ◌≡◌, ◌≢◌, ◌≤◌, ◌<◌, ◌⊎◌, refl, sym, ◌∙◌, [], ◌∷◌, ◌++◌, arith, inl, inr,
  append_assoc, some, ℤ, pos, negsuc,
}
use assignment2_c.Manager.{Adress, null}
use assignment2_c.Manager.Layout.Used.{Inserted}
use assignment2_c.Manager.Layout.Ranges.{In, apart}
use assignment2_c.Memory.{Bytes, load_word, store_word}
use assignment2_c.Memory.Words.{Fits, Fits-pointer, load-Fits, store_word-outside}
use assignment2_c.Allocator.{Allocator}
use assignment2_c.LinkedList.{ListState, Run, ok, released, sizeof_node, next_offset, to_uint16}
use assignment2_c.LinkedList.Chain.{Cells, NotIn, Distinct, Chain, IsList, In-bounds}
use assignment2_c.LinkedList.Links.{Chain-split, In-apart, Chain-In, In-Inserted, In-new, NotIn-new}
use assignment2_c.LinkedList.Relink.{
  NotIn-append, Distinct-split, Distinct-insert, with_node, Chain-with_node, Chain-front,
  Chain-relink,
}

-- The run returns with the list `after` in place of `cells`. What was handed out still is, and the
-- bytes of every block that is no node are kept.
pub record Grows (allocator : Allocator) (s : ListState allocator.State) (cells after : Cells)
    (r : Run allocator.State (Unit {0})) : Type 0 where
  pub state : ListState allocator.State
  pub returns : r ≡ ok tt state
  pub list : IsList allocator state after
  pub printed : state.printed ≡ s.printed
  pub kept : (q m : ℕ) → In q m (allocator.owned s.pool) → In q m (allocator.owned state.pool)
  pub spared :
      (q m k : ℕ)
      → In q m (allocator.owned s.pool)
      → NotIn q cells
      → k < m
      → allocator.bytes state.pool (q + k) ≡ allocator.bytes s.pool (q + k)

pub to_uint16-lt : (value : ℤ) → to_uint16 value < 2 ^ 16
to_uint16-lt (pos n) = omega arith
to_uint16-lt (negsuc n) = omega arith

-- Either the allocator has no block for a node, and nothing changes; or there is one new node, and the
-- list is as `after` says.
abbrev pub GrowsOrFails :
    (allocator : Allocator)
    → ListState allocator.State
    → Cells
    → (Adress → Cells)
    → Run allocator.State (Unit {0})
    → Type 0
GrowsOrFails allocator s cells after r =
    ((allocator.mem_alloc sizeof_node s.pool ≡ some (null, s.pool)) × (r ≡ ok tt s))
    ⊎ ((p : Adress) × Grows allocator s cells (after p) r)

-- The block `p` has been allocated for a node with the number `d`.
module _ (allocator : Allocator) (s : ListState allocator.State) (t : allocator.State) (p d : ℕ)
    (safe : allocator.IsSafe t)
    (new : Inserted (p, sizeof_node) (allocator.owned s.pool) (allocator.owned t))
    (small : d < 2 ^ 16) where
  open allocator use {State, bytes, set_bytes, owned}

  there : In p sizeof_node (owned t)
  there = In-new (owned s.pool) (owned t) p sizeof_node new

  still : (q m : ℕ) → In q m (owned s.pool) → In q m (owned t)
  still q m i = In-Inserted (owned s.pool) (owned t) (p, sizeof_node) q m new i

  -- What a new node leaves alone.
  spared_node :
      (w q m k : ℕ)
      → In q m (owned s.pool)
      → k < m
      → with_node (bytes s.pool) p d w (q + k) ≡ bytes s.pool (q + k)
  spared_node w q m k i l =
      let (end, below, r) = allocator.owned_ranges t safe in
      let far : (q + k < p) ⊎ (p + sizeof_node ≤ q + k) =
        elim (apart (owned s.pool) (owned t) p sizeof_node q m 1 end new r i) [
          | inl h ↦ inl (omega arith)
          | inr h ↦ inr (omega arith)
        ] in
      elim far [
        | inl h ↦
            store_word-outside 8 (store_word 2 (bytes s.pool) p d) (p + next_offset) w (q + k)
              (inl (omega arith))
            ∙ store_word-outside 2 (bytes s.pool) p d (q + k) (inl h)
        | inr h ↦
            store_word-outside 8 (store_word 2 (bytes s.pool) p d) (p + next_offset) w (q + k)
              (inr (omega arith))
            ∙ store_word-outside 2 (bytes s.pool) p d (q + k) (inr (omega arith))
      ]

  spared_link :
      (a w q n k : ℕ)
      → In a sizeof_node (owned t)
      → In q n (owned s.pool)
      → a ≢ q
      → k < n
      → store_word 8 (with_node (bytes s.pool) p d w) (a + next_offset) p (q + k)
        ≡ bytes s.pool (q + k)
  spared_link a w q n k here i ne l =
      let (end, below, r) = allocator.owned_ranges t safe in
      store_word-outside 8 (with_node (bytes s.pool) p d w) (a + next_offset) p (q + k)
        (elim (In-apart (owned t) a sizeof_node q n 1 end r here (still q n i) ne) [
          | inl h ↦ inr (omega arith)
          | inr h ↦ inl (omega arith)
        ])
      ∙ spared_node w q n k i l

  -- The last step: the memory `m` holds the list `after`.
  grows :
      (cells after : Cells) (m : Bytes) (head : Adress)
      → Chain (owned t) m head after null
      → Distinct after
      → ((q n k : ℕ)
          → In q n (owned s.pool)
          → NotIn q cells
          → k < n
          → m (q + k) ≡ bytes s.pool (q + k))
      → Grows allocator s cells after
          (ok tt (record s { pool = set_bytes m t; head = head; lock = released }))
  grows cells after m head chain distinct spare = record {
    state = record s { pool = set_bytes m t; head = head; lock = released };
    returns = refl;
    list = record {
      safe = allocator.set_IsSafe m t safe;
      chain = rw (allocator.owned_set m t, allocator.bytes_set m t) chain;
      distinct = distinct;
      unlocked = refl;
    };
    printed = refl;
    kept = λ q n i. rw (allocator.owned_set m t) (still q n i);
    spared = λ q n k i out l. rw (allocator.bytes_set m t) (spare q n k i out l);
  }

  pub in_front :
      (cells : Cells) (x : Adress)
      → IsList allocator s cells
      → x ≡ s.head
      → Fits 8 x
      → Grows allocator s cells ((p, d) ∷ cells) (
          ok tt (record s {
            pool = set_bytes (with_node (bytes s.pool) p d x) t;
            head = p;
            lock = released;
          }))
  in_front cells x l e fits =
      let (end, below, r) = allocator.owned_ranges t safe in
      let out =
        NotIn-new (owned s.pool) (owned t) p sizeof_node 1 end (bytes s.pool) s.head cells null new
          r (omega arith) l.chain in
      grows cells ((p, d) ∷ cells) (with_node (bytes s.pool) p d x) p
        (Chain-front (owned t) 1 end r (bytes s.pool) p d x cells null there out small fits (
          rw e (
            Chain-In (owned s.pool) (owned t) (bytes s.pool) s.head cells null
              (λ a i. still a sizeof_node i) l.chain)))
        (out, l.distinct) (λ q m k i o l. spared_node x q m k i l)

  pub behind :
      (pre : Cells) (a v : ℕ) (post : Cells) (w : Adress)
      → IsList allocator s (pre ++ (a, v) ∷ post)
      → w ≡ load_word 8 (bytes s.pool) (a + next_offset)
      → Grows allocator s (pre ++ (a, v) ∷ post) (pre ++ (a, v) ∷ (p, d) ∷ post) (
          ok tt (record s {
            pool = set_bytes (store_word 8 (with_node (bytes s.pool) p d w) (a + next_offset) p) t;
            lock = released;
          }))
  behind pre a v post w l e =
      let us = owned s.pool in
      let vs = owned t in
      let m = bytes s.pool in
      let cells = pre ++ (a, v) ∷ post in
      let (end, below, r) = allocator.owned_ranges t safe in
      let out =
        NotIn-new us vs p sizeof_node 1 end m s.head cells null new r (omega arith) l.chain in
      let (out_pre, out_post) = NotIn-append p pre ((a, v) ∷ post) out in
      let (a_pre, a_post, d') = Distinct-split pre a v post l.distinct in
      let all = Chain-In us vs m s.head cells null (λ b i. still b sizeof_node i) l.chain in
      let (x, t1, t2) = Chain-split vs m s.head pre ((a, v) ∷ post) null all in
      let node = with_node m p d w in
      let fits : Fits 8 w = rw e (load-Fits 8 m (a + next_offset)) in
      let single =
        Chain-with_node vs 1 end r m p d w a ((a, v) ∷ []) (load_word 8 m (a + next_offset)) there
          (out_post.0, tt) (refl, t2.1, t2.2, refl) in
      let new_post =
        Chain-front vs 1 end r m p d w post null there out_post.1 small fits (rw e t2.3) in
      let old_pre = Chain-with_node vs 1 end r m p d w s.head pre a there out_pre (rw t2.0 at t1) in
      grows cells (pre ++ (a, v) ∷ (p, d) ∷ post) (store_word 8 node (a + next_offset) p) s.head
        (Chain-relink vs 1 end r node s.head a v p pre ((p, d) ∷ post) null t2.1 single.2 a_pre
          (λ z. out_post.0 (sym z), a_post)
          (Fits-pointer p (omega (arith, below, In-bounds vs p sizeof_node 1 end r there))) old_pre
          new_post)
        (rw (append_assoc pre ((a, v) ∷ []) ((p, d) ∷ post)) at (
          Distinct-insert (pre ++ (a, v) ∷ []) p d post
            (rw (append_assoc pre ((a, v) ∷ []) post) out)
            (rw (append_assoc pre ((a, v) ∷ []) post) l.distinct)))
        (λ q n k i o lt.
          spared_link a w q n k t2.1 i (λ z. (NotIn-append q pre ((a, v) ∷ post) o).1.0 (sym z)) lt)
