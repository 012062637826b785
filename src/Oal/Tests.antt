-- ===== src/Oal/Tests.antt =====
-- A fifo of three blocks, and a list of one node.
use io_tware.Common.{
  ◌≡◌, ◌⊎◌, refl, some, none, undefined, ◌==◌, if◌then◌else◌, List, [], ◌∷◌, Bytes, ok, arith,
}
use io_tware.Oal.Fifo.{Fifo, success, fail, iw_count_fifo}
use io_tware.Oal.Fifo.Queue.{Valid, contents}
use io_tware.Oal.Fifo.Refine.{put, get, code_run, queue_run, run-queue}
use io_tware.Oal.Linked.{Heap, IwList, iw_add_list_node, iw_remove_list_node, delete_nodes}
use io_tware.Oal.Linked.Segment.{Cells, node}
use io_tware.Oal.Linked.Refine.{IsList, add-IsList}
use io_tware.Oal.Linked.Clear.{delete_nodes-counted}
use io_tware.Oal.Linked.Remove.{remove-IsList}

abbrev blocks : List Bytes
blocks = (1 ∷ 2 ∷ []) ∷ (3 ∷ 4 ∷ []) ∷ (5 ∷ 6 ∷ []) ∷ []

-- One block waits, and the next one goes to the end of the memory.
abbrev one : Fifo
one = record { put_pos = 2; get_pos = 1; block_size = 2; block_count = 3; blocks = blocks }

one-Valid : Valid one
one-Valid = record { put_in = omega arith; get_in = omega arith; room = refl; small = omega arith }

-- A block is put, two are got, and a third get finds the fifo empty.
run-queue_example :
    (f' : Fifo) × (code_run (put (7 ∷ 8 ∷ []) ∷ get ∷ get ∷ get ∷ []) one
      ≡ ok (
        (success, none)
            ∷ (success, some (3 ∷ 4 ∷ []))
            ∷ (success, some (7 ∷ 8 ∷ []))
            ∷ (fail, none)
            ∷ [],
        f',
      ))
    × Valid f'
    × (contents f' ≡ [])
unfolding contents queue_run iw_count_fifo
run-queue_example =
    run-queue (put (7 ∷ 8 ∷ []) ∷ get ∷ get ∷ get ∷ []) one 2 one-Valid refl
      (refl, (tt, (tt, (tt, tt))))

-- Nodes at the addresses 8 and 16, the latter in a list of its own.
abbrev heap : Heap
heap a = if a == 8 then some (node 5 5 70) else (if a == 16 then some (node 0 0 80) else none)

abbrev single : IwList
single = record { head = 16; node_num = 1 }

single-IsList : IsList heap single ((16, 80) ∷ [])
single-IsList = record {
  starts = refl;
  linked = (refl, tt);
  distinct = (tt, tt);
  nonzero = (λ e. ground arith, tt);
  counted = refl;
}

add-IsList_example :
    ((◌≡◌ {A = Cells} ((16, 80) ∷ []) [])
      × (heap 0 ≡ none)
      × (iw_add_list_node heap (some single) 8 ≡ undefined))
    ⊎ ((list' : IwList) × (h' : Heap) × (iw_add_list_node heap (some single) 8
          ≡ ok (success, some list', h'))
        × IsList h' list' ((8, 70) ∷ (16, 80) ∷ []))
add-IsList_example =
    add-IsList heap single ((16, 80) ∷ []) 8 (node 5 5 70) single-IsList refl (λ e. ground arith)
      (λ e. ground arith, tt)

remove-IsList_example :
    ((◌≡◌ {A = Cells} [] [])
      × (heap 0 ≡ none)
      × (iw_remove_list_node heap (some single) 16 ≡ undefined))
    ⊎ ((list' : IwList) × (h' : Heap) × (iw_remove_list_node heap (some single) 16
          ≡ ok (success, some list', h'))
        × IsList h' list' [])
remove-IsList_example = remove-IsList heap single [] (16, 80) [] single-IsList

-- The same nodes, where the address 0 can be written to.
abbrev writable : Heap
writable a = if a == 0 then some (node 0 0 0) else heap a

writable-IsList : IsList writable single ((16, 80) ∷ [])
writable-IsList = record {
  starts = refl;
  linked = (refl, tt);
  distinct = (tt, tt);
  nonzero = (λ e. ground arith, tt);
  counted = refl;
}

delete_nodes-counted_example :
    (list' : IwList) × (h' : Heap) × (delete_nodes 256 writable single ≡ ok (some (list', h')))
    × IsList h' list' []
    × ((h' 16 ≡ none) × Unit {0})
delete_nodes-counted_example =
    delete_nodes-counted writable single ((16, 80) ∷ []) (node 0 0 0) writable-IsList refl
