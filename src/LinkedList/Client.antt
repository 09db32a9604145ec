-- ===== src/LinkedList/Client.antt =====
-- A client that makes any calls of linked_list.c, against a plain list of addresses and numbers.
use assignment2_c.Prelude.{
  ℕ, ◌+◌, ◌≡◌, ◌≤◌, ◌<◌, refl, sym, ◌∙◌, ap, some, List, [], ◌∷◌, ◌++◌, arith, inl, inr, ℤ, length,
  length-append, append_assoc, append-nil, Bool-cases,
}
use assignment2_c.Manager.{Adress, null}
use assignment2_c.Allocator.{Allocator}
use assignment2_c.LinkedList.{
  ListState, Run, Cmd, Token, ok, pure, ◌>>=◌, ◌>>◌, to_uint16, is_data, sizeof_node,
}
use assignment2_c.LinkedList.Chain.{Cells, IsList}
use assignment2_c.LinkedList.Read.{list_search, list_display}
use assignment2_c.LinkedList.Read.Results.{
  find_cell, list_search-find_cell, list_display-displayed, displayed,
}
use assignment2_c.LinkedList.Insert.{list_insert}
use assignment2_c.LinkedList.Insert.Append.{list_insert-Grows}
use assignment2_c.LinkedList.Remove.{list_delete}
use assignment2_c.LinkedList.Remove.Shrinks.{erase}
use assignment2_c.LinkedList.Remove.Delete.{list_delete-Shrinks}

pub data Request : Type 0 where
  insert : ℤ → Request
  delete : ℤ → Request
  look_up : ℤ → Request
  display : Request

module _ (allocator : Allocator) (k : ℕ) where
  open allocator use {State}

  -- The answers of `list_search` are kept.
  unfoldable pub call : Request → Cmd State (List Adress)
  call (insert value) = list_insert allocator k value >> pure []
  call (delete value) = list_delete allocator k value >> pure []
  call (look_up value) = do p ← list_search allocator k value; pure (p ∷ [])
  call display = list_display allocator k >> pure []

  unfoldable pub calls : List Request → Cmd State (List Adress)
  calls [] = pure []
  calls (r ∷ rs) = do answers ← call r; others ← calls rs; pure (answers ++ others)

  -- `Follows rs s cells answers tokens after`: from the state `s`, with the list `cells`, the requests
  -- answer and print this, and lead to the list `after`. An insertion is refused only when the allocator
  -- has no block for a node.
  pub data Follows
      : List Request → ListState State → Cells → List Adress → List Token → Cells → Type 0 where
    done : {s : ListState State} {cs : Cells} → Follows [] s cs [] [] cs
    inserted :
        {value : ℤ} {rs : List Request} {s t : ListState State} {cs es : Cells} {qs : List Adress}
        {ts : List Token} (p : Adress)
        → call (insert value) s ≡ ok [] t
        → Follows rs t (cs ++ (p, to_uint16 value) ∷ []) qs ts es
        → Follows (insert value ∷ rs) s cs qs ts es
    refused :
        {value : ℤ} {rs : List Request} {s : ListState State} {cs es : Cells} {qs : List Adress}
        {ts : List Token}
        → allocator.mem_alloc sizeof_node s.pool ≡ some (null, s.pool)
        → Follows rs s cs qs ts es
        → Follows (insert value ∷ rs) s cs qs ts es
    deleted :
        {value : ℤ} {rs : List Request} {s t : ListState State} {cs es : Cells} {qs : List Adress}
        {ts : List Token}
        → call (delete value) s ≡ ok [] t
        → Follows rs t (erase value cs) qs ts es
        → Follows (delete value ∷ rs) s cs qs ts es
    looked_up :
        {value : ℤ} {rs : List Request} {s : ListState State} {cs es : Cells} {qs : List Adress}
        {ts : List Token}
        → Follows rs s cs qs ts es
        → Follows (look_up value ∷ rs) s cs (find_cell value cs ∷ qs) ts es
    displayed_all :
        {rs : List Request} {s t : ListState State} {cs es : Cells} {qs : List Adress}
        {ts : List Token}
        → call display s ≡ ok [] t
        → Follows rs t cs qs ts es
        → Follows (display ∷ rs) s cs qs (displayed cs ++ ts) es

  -- The calls return; the list, the answers and what is printed are those of the plain list.
  pub record Served (rs : List Request) (s : ListState State) (cells : Cells)
      (r : Run State (List Adress)) : Type 0 where
    pub state : ListState State
    pub after : Cells
    pub answers : List Adress
    pub tokens : List Token
    pub returns : r ≡ ok answers state
    pub list : IsList allocator state after
    pub follows : Follows rs s cells answers tokens after
    pub printed : state.printed ≡ s.printed ++ tokens

  -- One call, and then the others.
  then_others :
      (r : Request) (rs : List Request) (s t : ListState State) (cells now : Cells)
      (a : List Adress) (out : List Token)
      → call r s ≡ ok a t
      → t.printed ≡ s.printed ++ out
      → ((qs : List Adress) (ts : List Token) (es : Cells)
          → Follows rs t now qs ts es
          → Follows (r ∷ rs) s cells (a ++ qs) (out ++ ts) es)
      → Served rs t now (calls rs t)
      → Served (r ∷ rs) s cells (calls (r ∷ rs) s)
  unfolding calls
  then_others r rs s t cells now a out e p f served = record {
    state = served.state;
    after = served.after;
    answers = a ++ served.answers;
    tokens = out ++ served.tokens;
    returns = rw (calls, e, served.returns);
    list = served.list;
    follows = f served.answers served.tokens served.after served.follows;
    printed =
        served.printed ∙ ap (λ l. l ++ served.tokens) p ∙ append_assoc s.printed out served.tokens;
  }

erase-le : (value : ℤ) (cs : Cells) → length (erase value cs) ≤ length cs
unfolding erase
erase-le value [] = omega arith
erase-le value ((a, d) ∷ cs) =
    let le = erase-le value cs in
    elim (Bool-cases (is_data d value)) [
      | inl hit ↦ rw hit (omega arith)
      | inr miss ↦ rw miss (omega (arith, le))
    ]

module _ (allocator : Allocator) (k : ℕ) where
  open allocator use {State}

  -- Any requests, from any list, with fuel for every node that there can be: the calls return; an
  -- insertion appends a node, and is refused only when the allocator has no block for it, a deletion
  -- takes out the first node with the number, a search answers that node or `NULL`, and a display prints
  -- the numbers.
  pub calls-Served :
      (rs : List Request) (s : ListState State) (cells : Cells)
      → IsList allocator s cells
      → length cells + length rs < k
      → Served allocator k rs s cells (calls allocator k rs s)
  unfolding calls call
  calls-Served [] s cells l fuel = record {
    state = s;
    after = cells;
    answers = [];
    tokens = [];
    returns = refl;
    list = l;
    follows = done;
    printed = sym (append-nil s.printed);
  }
  calls-Served (insert value ∷ rs) s cells l fuel =
      elim (list_insert-Grows allocator s cells k value l (omega arith)) [
        | inl (none_left, e) ↦
            then_others allocator k (insert value) rs s s cells cells [] [] (rw (call, e))
              (sym (append-nil s.printed)) (λ qs ts es f. refused none_left f)
              (calls-Served rs s cells l (omega arith))
        | inr (p, g) ↦
            let now = cells ++ (p, to_uint16 value) ∷ [] in
            let e : call allocator k (insert value) s ≡ ok [] g.state = rw (call, g.returns) in
            then_others allocator k (insert value) rs s g.state cells now [] [] e
              (g.printed ∙ sym (append-nil s.printed)) (λ qs ts es f. inserted p e f)
              (calls-Served rs g.state now g.list
                (omega (arith, length-append cells ((p, to_uint16 value) ∷ []))))
      ]
  calls-Served (delete value ∷ rs) s cells l fuel =
      let d = list_delete-Shrinks allocator s k value cells l (omega arith) in
      let e : call allocator k (delete value) s ≡ ok [] d.state = rw (call, d.returns) in
      then_others allocator k (delete value) rs s d.state cells (erase value cells) [] [] e
        (d.printed ∙ sym (append-nil s.printed)) (λ qs ts es f. deleted e f)
        (calls-Served rs d.state (erase value cells) d.list (omega (arith, erase-le value cells)))
  calls-Served (look_up value ∷ rs) s cells l fuel =
      then_others allocator k (look_up value) rs s s cells cells (find_cell value cells ∷ []) []
        (rw (call, list_search-find_cell allocator s cells k l (omega arith) value))
        (sym (append-nil s.printed)) (λ qs ts es f. looked_up f)
        (calls-Served rs s cells l (omega arith))
  calls-Served (display ∷ rs) s cells l fuel =
      let t = record s { printed = s.printed ++ displayed cells } in
      let e : call allocator k display s ≡ ok [] t =
        rw (call, list_display-displayed allocator s cells k l (omega arith)) in
      then_others allocator k display rs s t cells cells [] (displayed cells) e refl
        (λ qs ts es f. displayed_all e f)
        (calls-Served rs t cells
          (record { safe = l.safe; chain = l.chain; distinct = l.distinct; unlocked = l.unlocked })
          (omega arith))
