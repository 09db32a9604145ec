-- ===== src/LinkedList/Insert.antt =====
-- `list_init` and the functions of linked_list.c that add a node. A loop has fuel, the first
-- argument.
pub mod After
pub mod Append
pub mod Before
pub mod Grows
use assignment2_c.Prelude.{ℕ, zero, suc, Bool, true, false, ◌==◌, if◌then◌else◌, ℤ}
use assignment2_c.Manager.{Adress, null}
use assignment2_c.Allocator.{Allocator}
use assignment2_c.LinkedList.{
  Cmd, out_of_fuel, pure, ◌>>=◌, ◌>>◌, get_head, set_head, wrlock, unlock, init_lock, to_uint16,
  sizeof_node, get_next, set_data, set_next, call_init, call_alloc,
}

module _ (allocator : Allocator) where
  open allocator use {State}

  unfoldable pub list_init : ℕ → Cmd State (Unit {0})
  list_init size = do call_init allocator size; set_head null; init_lock

  -- The loop of `list_insert` for the last node.
  unfoldable pub last_loop : ℕ → Adress → Cmd State Adress
  last_loop zero p = λ s. out_of_fuel
  last_loop (suc k) p = do q ← get_next allocator p; if q == null then pure p else last_loop k q

  -- What follows once the node is written.
  unfoldable pub link_node : ℕ → Adress → Cmd State (Unit {0})
  link_node k new_node = do
    head ← get_head
    if head == null
        then (set_head new_node >> unlock)
        else (do current ← last_loop k head; set_next allocator current new_node; unlock)

  -- What follows once there is a node.
  unfoldable pub append_node : ℕ → Adress → ℤ → Cmd State (Unit {0})
  append_node k new_node value = do
    set_data allocator new_node (to_uint16 value)
    set_next allocator new_node null
    link_node k new_node

  unfoldable pub list_insert : ℕ → ℤ → Cmd State (Unit {0})
  list_insert k value = do
    wrlock
    new_node ← call_alloc allocator sizeof_node
    if new_node == null then unlock else append_node k new_node value

  unfoldable pub list_insert_after : Adress → ℤ → Cmd State (Unit {0})
  list_insert_after prev_node value = if prev_node == null then pure tt else (do
    wrlock
    new_node ← call_alloc allocator sizeof_node
    if new_node == null then unlock else (do
      set_data allocator new_node (to_uint16 value)
      next ← get_next allocator prev_node
      set_next allocator new_node next
      set_next allocator prev_node new_node
      unlock))

  -- The loop for the node before `target`. `list_delete` has the same.
  unfoldable pub previous_loop : ℕ → Adress → Adress → Cmd State Adress
  previous_loop zero p target = λ s. out_of_fuel
  previous_loop (suc k) p target =
      if p == null
      then pure null
      else (do q ← get_next allocator p; if q == target then pure p else previous_loop k q target)

  -- `next_node` is the head. The result of `mem_alloc` is not tested.
  unfoldable pub insert_head : Adress → ℤ → Cmd State (Unit {0})
  insert_head head value = do
    new_node ← call_alloc allocator sizeof_node
    set_data allocator new_node (to_uint16 value)
    set_next allocator new_node head
    set_head new_node
    unlock

  -- `next_node` is behind `prev_node`.
  unfoldable pub insert_behind : Adress → Adress → ℤ → Cmd State (Unit {0})
  insert_behind prev_node next_node value = do
    new_node ← call_alloc allocator sizeof_node
    if new_node == null then unlock else (do
      set_data allocator new_node (to_uint16 value)
      set_next allocator new_node next_node
      set_next allocator prev_node new_node
      unlock)

  -- `next_node` is another node, or none of the list.
  unfoldable pub insert_inside : ℕ → Adress → Adress → ℤ → Cmd State (Unit {0})
  insert_inside k head next_node value = do
    prev_node ← previous_loop k head next_node
    if prev_node == null then unlock else insert_behind prev_node next_node value

  unfoldable pub list_insert_before : ℕ → Adress → ℤ → Cmd State (Unit {0})
  list_insert_before k next_node value = if next_node == null then pure tt else (do
    wrlock
    head ← get_head
    if head == next_node then insert_head head value else insert_inside k head next_node value)
