-- ===== src/LinkedList/Remove.antt =====
-- The functions of linked_list.c that free nodes. A loop has fuel, the first argument.
pub mod Cleanup
pub mod Delete
pub mod Shrinks
use assignment2_c.Prelude.{ℕ, zero, suc, Bool, true, false, ◌==◌, if◌then◌else◌, ℤ}
use assignment2_c.Manager.{Adress, null}
use assignment2_c.Allocator.{Allocator}
use assignment2_c.LinkedList.{
  Cmd, out_of_fuel, pure, ◌>>=◌, ◌>>◌, get_head, set_head, wrlock, unlock, destroy_lock, get_next,
  set_next, call_free, call_deinit,
}
use assignment2_c.LinkedList.Read.{search_loop}
use assignment2_c.LinkedList.Insert.{previous_loop}

module _ (allocator : Allocator) where
  open allocator use {State}

  -- The node that is found is the head.
  unfoldable pub remove_head : Adress → Cmd State (Unit {0})
  remove_head node_to_remove = do
    next ← get_next allocator node_to_remove
    set_head next
    call_free allocator node_to_remove
    unlock

  -- The node that is found is behind another: the last node, or one in the middle.
  unfoldable pub remove_inside : ℕ → Adress → Adress → Cmd State (Unit {0})
  remove_inside k head node_to_remove = do
    prev_node ← previous_loop allocator k head node_to_remove
    next ← get_next allocator node_to_remove
    if next == null
        then (do set_next allocator prev_node null; call_free allocator node_to_remove; unlock)
        else (do
          next ← get_next allocator node_to_remove
          set_next allocator prev_node next
          call_free allocator node_to_remove
          unlock)

  -- What follows the search.
  unfoldable pub delete_node : ℕ → Adress → Adress → Cmd State (Unit {0})
  delete_node k head node_to_remove =
      if node_to_remove == null
      then unlock
      else (if head == node_to_remove
          then remove_head node_to_remove
          else remove_inside k head node_to_remove)

  unfoldable pub list_delete : ℕ → ℤ → Cmd State (Unit {0})
  list_delete k value = do
    wrlock
    head ← get_head
    node_to_remove ← search_loop allocator k head value
    delete_node k head node_to_remove

  unfoldable pub cleanup_loop : ℕ → Adress → Cmd State (Unit {0})
  cleanup_loop zero p = λ s. out_of_fuel
  cleanup_loop (suc k) p =
      if p == null
      then pure tt
      else (do q ← get_next allocator p; call_free allocator p; cleanup_loop k q)

  unfoldable pub list_cleanup : ℕ → Cmd State (Unit {0})
  list_cleanup k = do
    wrlock
    head ← get_head
    if head == null
        then (do call_deinit allocator; unlock)
        else (do cleanup_loop k head; call_deinit allocator; set_head null; unlock; destroy_lock)
