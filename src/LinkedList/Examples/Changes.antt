-- ===== src/LinkedList/Examples/Changes.antt =====
-- The theorems on changes of the list, at the list of two nodes.
use assignment2_c.Prelude.{◌≡◌, ◌⊎◌, refl, some, List, [], ◌∷◌, ◌++◌, arith, pos, negsuc}
use assignment2_c.Manager.{Adress, null, Manager}
use assignment2_c.LinkedList.{ListState, ok, fault, sizeof_node}
use assignment2_c.LinkedList.Chain.{IsList}
use assignment2_c.LinkedList.Read.{list_search}
use assignment2_c.LinkedList.Read.Results.{find_cell}
use assignment2_c.LinkedList.Insert.{list_insert, list_insert_after, list_insert_before}
use assignment2_c.LinkedList.Insert.Grows.{Grows, GrowsOrFails}
use assignment2_c.LinkedList.Insert.Append.{list_insert-Grows}
use assignment2_c.LinkedList.Insert.After.{list_insert_after-Grows}
use assignment2_c.LinkedList.Insert.Before.{
  list_insert_before-first, list_insert_before-Grows, list_insert_before-absent,
}
use assignment2_c.LinkedList.Remove.{list_delete, list_cleanup}
use assignment2_c.LinkedList.Remove.Shrinks.{erase, Shrinks}
use assignment2_c.LinkedList.Remove.Delete.{list_delete-Shrinks}
use assignment2_c.LinkedList.Remove.Cleanup.{lock_after, list_cleanup-IsStopped}
use assignment2_c.LinkedList.RoundTrip.{list_search-list_insert, list_delete-list_insert}
use assignment2_c.LinkedList.Client.{
  Request, insert, delete, look_up, display, calls, Served, calls-Served,
}
use assignment2_c.LinkedList.Examples.{allocator, two, two_cells, two-IsList}

list_insert-Grows_example :
    GrowsOrFails allocator two two_cells
      (λ p. (1000, 5) ∷ (1016, 700) ∷ (p, 65535) ∷ [])
      (list_insert allocator 3 (negsuc 0) two)
list_insert-Grows_example =
    list_insert-Grows allocator two two_cells 3 (negsuc 0) two-IsList (omega arith)

list_insert_after-Grows_example :
    GrowsOrFails allocator two two_cells
      (λ p. (1000, 5) ∷ (p, 6) ∷ (1016, 700) ∷ [])
      (list_insert_after allocator 1000 (pos 6) two)
list_insert_after-Grows_example =
    list_insert_after-Grows allocator two [] 1000 5 ((1016, 700) ∷ []) (pos 6) two-IsList

list_insert_before-Grows_example :
    GrowsOrFails allocator two two_cells
      (λ p. (1000, 5) ∷ (p, 6) ∷ (1016, 700) ∷ [])
      (list_insert_before allocator 3 1016 (pos 6) two)
list_insert_before-Grows_example =
    list_insert_before-Grows allocator two [] 1000 5 1016 700 [] 3 (pos 6) two-IsList (omega arith)

list_insert_before-first_example :
    ((allocator.mem_alloc sizeof_node two.pool ≡ some (null, two.pool))
      × (list_insert_before allocator 3 1000 (pos 4) two ≡ fault))
    ⊎ ((p : Adress) × Grows allocator two two_cells
          ((p, 4) ∷ two_cells)
          (list_insert_before allocator 3 1000 (pos 4) two))
list_insert_before-first_example =
    list_insert_before-first allocator two 1000 5 ((1016, 700) ∷ []) 3 (pos 4) two-IsList

list_insert_before-absent_example : list_insert_before allocator 3 1032 (pos 4) two ≡ ok tt two
list_insert_before-absent_example =
    list_insert_before-absent allocator two two_cells 3 1032 (pos 4) two-IsList (omega arith)
      (omega arith)

list_delete-Shrinks_example :
    Shrinks allocator two two_cells
      (erase (pos 700) two_cells)
      (find_cell (pos 700) two_cells)
      (list_delete allocator 3 (pos 700) two)
list_delete-Shrinks_example =
    list_delete-Shrinks allocator two 3 (pos 700) two_cells two-IsList (omega arith)

list_cleanup-IsStopped_example :
    (t : Manager) × (list_cleanup allocator 3 two
      ≡ ok tt (record two { pool = t; head = null; lock = lock_after two_cells }))
    × allocator.IsStopped t
    × (allocator.owned t ≡ [])
list_cleanup-IsStopped_example =
    list_cleanup-IsStopped allocator two 3 two_cells two-IsList (omega arith)

list_search-list_insert_example :
    ((allocator.mem_alloc sizeof_node two.pool ≡ some (null, two.pool))
      × (list_insert allocator 3 (pos 65536) two ≡ ok tt two))
    ⊎ ((p : Adress) × (t : ListState Manager) × (list_insert allocator 3 (pos 65536) two ≡ ok tt t)
        × (list_search allocator 4 (pos 65536) t ≡ ok null t)
        × IsList allocator t (two_cells ++ (p, 0) ∷ []))
list_search-list_insert_example =
    list_search-list_insert allocator two two_cells 3 (pos 65536) two-IsList (omega arith)
      (refl, (refl, tt))

list_delete-list_insert_example :
    (t : ListState Manager) × (u : ListState Manager) × (list_insert allocator 3 (pos 9) two
      ≡ ok tt t)
    × (list_delete allocator 4 (pos 9) t ≡ ok tt u)
    × IsList allocator u two_cells
list_delete-list_insert_example =
    list_delete-list_insert allocator two two_cells 3 (pos 9) two-IsList (omega arith)
      (refl, (refl, tt)) refl

abbrev requests : List Request
requests = insert (pos 3) ∷ look_up (pos 700) ∷ delete (pos 5) ∷ display ∷ []

calls-Served_example : Served allocator 7 requests two two_cells (calls allocator 7 requests two)
calls-Served_example = calls-Served allocator 7 requests two two_cells two-IsList (omega arith)
