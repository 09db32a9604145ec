-- ===== src/LinkedList/Examples.antt =====
-- A list of two nodes in a pool of 100 bytes, and the theorems on reading at it.
mod Changes
use assignment2_c.Prelude.{
  ℕ, suc, ◌+◌, ◌^◌, ◌≡◌, ◌≢◌, ◌⊎◌, refl, true, false, some, [], ◌∷◌, ◌++◌, arith, inl, inr, ℤ, pos,
  negsuc, length,
}
use assignment2_c.Manager.{Adress, null, Manager, holding}
use assignment2_c.Manager.Layout.{block, IsValid}
use assignment2_c.Manager.Layout.Used.{used}
use assignment2_c.Manager.Init.Lifecycle.{one_block}
use assignment2_c.Manager.Examples.{garbage, generous, nothing, generous-HasRoom}
use assignment2_c.Memory.{load_word, store_word}
use assignment2_c.Allocator.{Allocator}
use assignment2_c.Allocator.Pool.{pool, IsPool}
use assignment2_c.LinkedList.{ListState, Token, ok, released, get_data, get_next}
use assignment2_c.LinkedList.Chain.{Cells, IsList}
use assignment2_c.LinkedList.Relink.{with_node}
use assignment2_c.LinkedList.Read.{
  list_search, search_loop, list_count_nodes, count_loop, list_display, list_display_range,
}
use assignment2_c.LinkedList.Read.Results.{
  find_cell, list_search-find_cell, list_count_nodes-length, displayed, list_display-displayed,
}
use assignment2_c.LinkedList.Read.Range.{ranged_out, up_to, list_display_range-up_to}

abbrev pub allocator : Allocator
allocator = pool generous (λ n. 1000) garbage generous-HasRoom (λ n h l. omega arith)

abbrev pub two_blocks : Manager
two_blocks =
    record (holding (one_block nothing 1000 100)
      (block 1000 16 true ∷ block 1016 16 true ∷ block 1032 68 false ∷ []) []) {
        bytes = with_node (with_node (λ a. 0) 1000 5 1016) 1016 700 null;
      }

abbrev pub two : ListState Manager
two = record { pool = two_blocks; head = 1000; lock = released; printed = [] }

abbrev pub two_cells : Cells
two_cells = (1000, 5) ∷ (1016, 700) ∷ []

pub two-IsPool : IsPool two_blocks
two-IsPool = (
  100,
  omega arith,
  record {
    junk = [];
    shape = refl;
    valid = record {
      started = omega arith;
      tiling = omega arith;
      merged = (refl, (refl, (refl, tt)));
      in_range = omega arith;
    };
    size_kept = refl;
    lock_free = refl;
  },
)

pub two-IsList : IsList allocator two two_cells
unfolding load_word store_word used
two-IsList = record {
  safe = two-IsPool;
  chain = (refl, inl (refl, refl), refl, (refl, inr (inl (refl, refl)), refl, refl));
  distinct = ((omega arith, tt), (tt, tt));
  unlocked = refl;
}

search_700 : list_search allocator 3 (pos 700) two ≡ ok 1016 two
unfolding list_search search_loop get_data get_next load_word store_word used
search_700 = refl

list_count_nodes-length_example : list_count_nodes allocator 3 two ≡ ok 2 two
list_count_nodes-length_example =
    list_count_nodes-length allocator two two_cells 3 two-IsList (omega arith) (omega arith)

list_search-find_cell_example :
    list_search allocator 3 (negsuc 4) two ≡ ok (find_cell (negsuc 4) two_cells) two
list_search-find_cell_example =
    list_search-find_cell allocator two two_cells 3 two-IsList (omega arith) (negsuc 4)

list_display-displayed_example :
    list_display allocator 3 two ≡ ok tt (record two { printed = [] ++ displayed two_cells })
list_display-displayed_example =
    list_display-displayed allocator two two_cells 3 two-IsList (omega arith)

list_display_range-up_to_example :
    list_display_range allocator 3 1016 null two
    ≡ ok tt (record two { printed = ranged_out [] null ((1016, 700) ∷ []) })
list_display_range-up_to_example =
    list_display_range-up_to allocator two two_cells ((1016, 700) ∷ []) 3 1016 null two-IsList
      (omega arith) (inr ((1000, 5) ∷ [], 1016, 700, [], refl, refl, refl))
