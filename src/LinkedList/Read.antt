-- ===== src/LinkedList/Read.antt =====
-- The functions of linked_list.c that only read the list. A loop has fuel, the first argument.
pub mod Range
pub mod Results
use assignment2_c.Prelude.{ℕ, zero, suc, ◌+◌, Bool, true, false, ◌==◌, leb, if◌then◌else◌, ℤ}
use assignment2_c.Manager.{Adress, null, int_max}
use assignment2_c.Allocator.{Allocator}
use assignment2_c.LinkedList.{
  Cmd, ok, fault, out_of_fuel, pure, ◌>>=◌, ◌>>◌, get_head, rdlock, unlock, is_data, get_data,
  get_next, print, open_bracket, number, comma, close_bracket, new_line,
}

module _ (allocator : Allocator) where
  open allocator use {State}

  -- The loop of `list_search`, from `p` on. `list_delete` has the same.
  unfoldable pub search_loop : ℕ → Adress → ℤ → Cmd State Adress
  search_loop zero p value = λ s. out_of_fuel
  search_loop (suc k) p value = if p == null then pure null else (do
    d ← get_data allocator p
    if is_data d value then pure p else (do q ← get_next allocator p; search_loop k q value))

  unfoldable pub list_search : ℕ → ℤ → Cmd State Adress
  list_search k value = do rdlock; p ← get_head; found ← search_loop k p value; unlock; pure found

  -- An `amount` above the largest `int` is a fault.
  unfoldable pub count_loop : ℕ → Adress → ℕ → Cmd State ℕ
  count_loop zero p amount = λ s. out_of_fuel
  count_loop (suc k) p amount = do
    q ← get_next allocator p
    if q == null
        then pure amount
        else (if leb int_max amount then (λ s. fault) else count_loop k q (amount + 1))

  unfoldable pub list_count_nodes : ℕ → Cmd State ℕ
  list_count_nodes k = do
    rdlock
    p ← get_head
    if p == null then (unlock >> pure 0) else (do amount ← count_loop k p 1; unlock; pure amount)

  unfoldable pub display_loop : ℕ → Adress → Cmd State (Unit {0})
  display_loop zero p = λ s. out_of_fuel
  display_loop (suc k) p = if p == null then pure tt else (do
    d ← get_data allocator p
    print (number d)
    q ← get_next allocator p
    if q == null then pure tt else print comma
    display_loop k q)

  unfoldable pub list_display : ℕ → Cmd State (Unit {0})
  list_display k = do
    rdlock
    p ← get_head
    if p == null
        then (do print open_bracket; print close_bracket; unlock)
        else (do print open_bracket; display_loop k p; print close_bracket; print new_line; unlock)

  -- The loop of `list_display_range` with its variables `current` and `isFIrst`.
  unfoldable pub range_loop : ℕ → Adress → Bool → Adress → Cmd State (Unit {0})
  range_loop zero p is_first end_node = λ s. out_of_fuel
  range_loop (suc k) p is_first end_node = if p == null then pure tt else (do
    if is_first then pure tt else print comma
    d ← get_data allocator p
    print (number d)
    if p == end_node then pure tt else (do q ← get_next allocator p; range_loop k q false end_node))

  unfoldable pub list_display_range : ℕ → Adress → Adress → Cmd State (Unit {0})
  list_display_range k start_node end_node = do
    rdlock
    head ← get_head
    print open_bracket
    range_loop k (if start_node == null then head else start_node) true end_node
    print close_bracket
    unlock
