-- ===== src/LinkedList/Read/Results.antt =====
-- What the reading functions answer, for the list that is there.
use assignment2_c.Prelude.{
  ℕ, zero, suc, ◌+◌, ◌≡◌, ◌≢◌, ◌≤◌, ◌<◌, refl, ap, ◌∙◌, false, List, [], ◌∷◌, ◌++◌, arith, length,
  inl, inr, leb, if◌then◌else◌, ==_of_ne, Bool-cases, ℤ, append_assoc, append-nil,
}
use assignment2_c.Manager.{Adress, null, int_max}
use assignment2_c.Manager.Layout.Used.{Ranges}
use assignment2_c.Manager.Layout.Ranges.{In}
use assignment2_c.Memory.{load_word}
use assignment2_c.Allocator.{Allocator}
use assignment2_c.LinkedList.{
  ListState, ok, released, reading, is_data, sizeof_node, next_offset, Token, number, comma,
  open_bracket, close_bracket, new_line,
}
use assignment2_c.LinkedList.Read.{
  search_loop, list_search, count_loop, list_count_nodes, display_loop, list_display,
}
use assignment2_c.LinkedList.Chain.{
  Cells, Chain, IsList, In-bounds, get_data-In, get_next-In, with_lock, at_rest, at_rest_to,
}

-- The address of the first node with the number.
unfoldable pub find_cell : ℤ → Cells → Adress
find_cell value [] = null
find_cell value ((a, d) ∷ cs) = if is_data d value then a else find_cell value cs

-- The numbers with commas between them.
unfoldable pub listed : Cells → List Token
listed [] = []
listed ((a, d) ∷ []) = number d ∷ []
listed ((a, d) ∷ c ∷ cs) = number d ∷ comma ∷ listed (c ∷ cs)

pub In-ne-null :
    (p : Adress) (us : List (Adress × ℕ)) (end : Adress)
    → Ranges 1 us end
    → In p sizeof_node us
    → p ≢ null
In-ne-null p us end r i e = absurd (omega (arith, In-bounds us p sizeof_node 1 end r i, e))

-- A chain that ends in `NULL` starts there only if it is empty.
pub head-ne-null :
    (us : List (Adress × ℕ)) (m : Adress → ℕ) (p : Adress) (c : Adress × ℕ) (cs : Cells)
    (end : Adress)
    → Ranges 1 us end
    → Chain us m p (c ∷ cs) null
    → p ≢ null
head-ne-null us m p (a, v) cs end r t e = In-ne-null a us end r t.1 (rw (← t.0) e)

module _ (allocator : Allocator) (s : ListState allocator.State) (end : Adress)
    (r : Ranges 1 (allocator.owned s.pool) end) where
  open allocator use {bytes, owned}

  pub search_loop-find_cell :
      (k : ℕ) (p : Adress) (cells : Cells) (value : ℤ)
      → Chain (owned s.pool) (bytes s.pool) p cells null
      → length cells < k
      → search_loop allocator k p value s ≡ ok (find_cell value cells) s
  unfolding search_loop find_cell
  search_loop-find_cell zero p cells value t h = absurd (omega arith)
  search_loop-find_cell (suc k) p [] value t h = rw t
  search_loop-find_cell (suc k) p ((a, d) ∷ cs) value t h =
      rw
        (
          t.0,
          ==_of_ne a null (In-ne-null a (owned s.pool) end r t.1),
          get_data-In allocator s a t.1,
          t.2,
        )
        (elim (Bool-cases (is_data d value)) [
          | inl hit ↦ rw hit
          | inr miss ↦
              rw (miss, get_next-In allocator s a t.1)
                (search_loop-find_cell k (load_word 8 (bytes s.pool) (a + next_offset)) cs value t.3
                  (omega arith))
        ])

  count_loop-length :
      (k : ℕ) (p : Adress) (c : Adress × ℕ) (cs : Cells) (amount : ℕ)
      → Chain (owned s.pool) (bytes s.pool) p (c ∷ cs) null
      → length cs < k
      → amount + length cs ≤ int_max
      → count_loop allocator k p amount s ≡ ok (amount + length cs) s
  unfolding count_loop
  count_loop-length zero p c cs amount t h small = absurd (omega arith)
  count_loop-length (suc k) p (a, d) [] amount t h small =
      let z : amount + 0 ≡ amount = omega arith in rw (t.0, get_next-In allocator s a t.1, t.3, z)
  count_loop-length (suc k) p (a, d) (c ∷ cs) amount t h small =
      let q = load_word 8 (bytes s.pool) (a + next_offset) in
      let z : leb int_max amount ≡ false = ground arith in
      rw
        (
          t.0,
          get_next-In allocator s a t.1,
          ==_of_ne q null (head-ne-null (owned s.pool) (bytes s.pool) q c cs end r t.3),
          z,
        )
        (count_loop-length k q c cs (amount + 1) t.3 (omega arith) (omega arith)
          ∙ ap (λ n. ok n s) (omega arith))

  display_loop-listed :
      (k : ℕ) (p : Adress) (cells : Cells) (out : List Token)
      → Chain (owned s.pool) (bytes s.pool) p cells null
      → length cells < k
      → display_loop allocator k p (record s { printed = out })
        ≡ ok tt (record s { printed = out ++ listed cells })
  unfolding display_loop listed
  display_loop-listed zero p cells out t h = absurd (omega arith)
  display_loop-listed (suc k) p [] out t h = rw (t, append-nil out)
  display_loop-listed (suc k) p ((a, d) ∷ []) out t h =
      let here = record s { printed = out } in
      let shown = record s { printed = out ++ number d ∷ [] } in
      rw
        (
          t.0,
          ==_of_ne a null (In-ne-null a (owned s.pool) end r t.1),
          get_data-In allocator here a t.1,
          t.2,
          get_next-In allocator shown a t.1,
          t.3,
        )
        (display_loop-listed k null [] (out ++ number d ∷ []) refl (omega arith)
          ∙ ap (λ l. ok tt (record s { printed = l })) (append-nil (out ++ number d ∷ [])))
  display_loop-listed (suc k) p ((a, d) ∷ c ∷ cs) out t h =
      let here = record s { printed = out } in
      let shown = record s { printed = out ++ number d ∷ [] } in
      let q = load_word 8 (bytes s.pool) (a + next_offset) in
      rw
        (
          t.0,
          ==_of_ne a null (In-ne-null a (owned s.pool) end r t.1),
          get_data-In allocator here a t.1,
          t.2,
          get_next-In allocator shown a t.1,
          ==_of_ne q null (head-ne-null (owned s.pool) (bytes s.pool) q c cs end r t.3),
          append_assoc out (number d ∷ []) (comma ∷ []),
        )
        (rw (append_assoc out (number d ∷ comma ∷ []) (listed (c ∷ cs))) at
          (display_loop-listed k q (c ∷ cs) (out ++ number d ∷ comma ∷ []) t.3 (omega arith)))

-- What is printed for a list.
abbrev pub displayed : Cells → List Token
displayed [] = open_bracket ∷ close_bracket ∷ []
displayed (c ∷ cs) = open_bracket ∷ (listed (c ∷ cs) ++ (close_bracket ∷ new_line ∷ []))

module _ (allocator : Allocator) (s : ListState allocator.State) (end : Adress)
    (r : Ranges 1 (allocator.owned s.pool) end) where
  open allocator use {bytes, owned}

  count_from :
      (k : ℕ) (cells : Cells)
      → Chain (owned s.pool) (bytes s.pool) s.head cells null
      → length cells < k
      → length cells ≤ int_max
      → list_count_nodes allocator k (with_lock s released)
        ≡ ok (length cells) (with_lock s released)
  unfolding list_count_nodes
  count_from k [] t h small = rw t
  count_from k (c ∷ cs) t h small =
      let z : 1 + length cs ≡ length (c ∷ cs) = omega arith in
      rw (==_of_ne s.head null (head-ne-null (owned s.pool) (bytes s.pool) s.head c cs end r t)) (
        rw (
          count_loop-length allocator (with_lock s (reading 0)) end r k s.head c cs 1 t
              (omega arith) (omega arith),
          z,
        ))

  display_from :
      (k : ℕ) (cells : Cells)
      → Chain (owned s.pool) (bytes s.pool) s.head cells null
      → length cells < k
      → list_display allocator k (with_lock s released)
        ≡ ok tt (with_lock (record s { printed = s.printed ++ displayed cells }) released)
  unfolding list_display
  display_from k [] t h = rw (t, append_assoc s.printed (open_bracket ∷ []) (close_bracket ∷ []))
  display_from k (c ∷ cs) t h =
      let reader = with_lock s (reading 0) in
      rw
        (
          ==_of_ne s.head null (head-ne-null (owned s.pool) (bytes s.pool) s.head c cs end r t),
          display_loop-listed allocator reader end r k s.head (c ∷ cs)
              (s.printed ++ open_bracket ∷ []) t h,
        )
        (simp append_assoc)

module _ (allocator : Allocator) (s : ListState allocator.State) (cells : Cells) (k : ℕ)
    (l : IsList allocator s cells) (fuel : length cells < k) where
  open allocator use {bytes, owned}

  -- `list_search` returns the first node with the number, or `NULL` if there is none. An `int` that is
  -- no `uint16_t` is not found. Nothing changes.
  pub list_search-find_cell :
      (value : ℤ) → list_search allocator k value s ≡ ok (find_cell value cells) s
  unfolding list_search
  list_search-find_cell value =
      let (end, small, r) = allocator.owned_ranges s.pool l.safe in
      at_rest s l.unlocked (list_search allocator k value) (find_cell value cells) (
        rw (
          search_loop-find_cell allocator (record s { lock = reading 0 }) end r k s.head cells value
            l.chain fuel))

  -- `list_count_nodes` is the number of nodes, if an `int` can hold it. Nothing changes.
  pub list_count_nodes-length :
      length cells ≤ int_max → list_count_nodes allocator k s ≡ ok (length cells) s
  unfolding list_count_nodes
  list_count_nodes-length small =
      let (end, below, r) = allocator.owned_ranges s.pool l.safe in
      at_rest s l.unlocked (list_count_nodes allocator k) (length cells)
        (count_from allocator s end r k cells l.chain fuel small)

  -- `list_display` prints the numbers in order, in brackets and with commas between them, and a new line
  -- if there is a number. Nothing else changes.
  pub list_display-displayed :
      list_display allocator k s ≡ ok tt (record s { printed = s.printed ++ displayed cells })
  list_display-displayed =
      let (end, below, r) = allocator.owned_ranges s.pool l.safe in
      at_rest_to s l.unlocked (list_display allocator k) tt
        (λ u. record u { printed = s.printed ++ displayed cells })
        (display_from allocator s end r k cells l.chain fuel)
