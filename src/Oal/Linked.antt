-- ===== src/Oal/Linked.antt =====
-- iw_oal_list.c, on a heap of nodes by their addresses. No node is at the address 0, which is NULL.
pub mod Segment
pub mod Refine
pub mod Unlink
pub mod Last
pub mod Remove
pub mod Clear
use io_tware.Common.{
  ℕ, zero, suc, ◌+◌, ◌%◌, Option, none, some, Exec, ok, undefined, ◌>>=◌, ◌==◌, if◌then◌else◌,
}
use io_tware.Oal.Fifo.{IwError, success, fail}

-- `iw_list_node_t`
pub record Node : Type 0 where
  pub next : ℕ
  pub previous : ℕ
  pub p_data : ℕ

abbrev pub Heap : Type 0
Heap = ℕ → Option Node

-- `iw_list_t`, with an unsigned char for the count.
pub record IwList : Type 0 where
  pub head : ℕ
  pub node_num : ℕ

-- What is at an address, if it is a node.
abbrev pub loaded : Option Node → Exec Node
loaded none = undefined
loaded (some n) = ok n

-- `*p`
unfoldable pub node_at : Heap → ℕ → Exec Node
node_at h p = loaded (h p)

unfoldable pub put_node : Heap → ℕ → Node → Heap
put_node h p n a = if a == p then some n else h a

-- `p->next = q;`
unfoldable pub set_next : Heap → ℕ → ℕ → Exec Heap
unfolding node_at
set_next h p q = do n ← node_at h p; ok (put_node h p (record n { next = q }))

-- `p->previous = q;`
unfoldable pub set_previous : Heap → ℕ → ℕ → Exec Heap
unfolding node_at
set_previous h p q = do n ← node_at h p; ok (put_node h p (record n { previous = q }))

-- `iw_init_list`. The list may be NULL, here and below.
unfoldable pub iw_init_list : Option IwList → IwError × Option IwList
iw_init_list none = (fail, none)
iw_init_list (some list) = (success, some (record { head = 0; node_num = 0 }))

unfoldable pub iw_add_list_node : Heap → Option IwList → ℕ → Exec (IwError × Option IwList × Heap)
unfolding node_at set_next set_previous
iw_add_list_node h none node = ok (fail, none, h)
iw_add_list_node h (some list) node = if node == 0 then ok (fail, some list, h) else (do
  h1 ← set_next h node list.head
  h2 ← set_previous h1 node 0
  n ← node_at h2 node
  h3 ← set_previous h2 n.next node
  ok (success, some (record { head = node; node_num = (list.node_num + 1) % 256 }), h3))

unfoldable pub iw_remove_list_node :
    Heap → Option IwList → ℕ → Exec (IwError × Option IwList × Heap)
unfolding node_at set_next set_previous
iw_remove_list_node h none node = ok (fail, none, h)
iw_remove_list_node h (some list) node =
    let fewer = (list.node_num + 255) % 256 in
    if node == 0
    then ok (fail, some list, h)
    else (if node == list.head
        then (do
          n ← node_at h node
          h1 ← set_previous h n.next 0
          ok (success, some (record { head = n.next; node_num = fewer }), h1))
        else (do
          n ← node_at h node
          h1 ← set_previous h n.next n.previous
          n1 ← node_at h1 node
          h2 ← set_next h1 n1.previous n1.next
          ok (success, some (record { head = list.head; node_num = fewer }), h2)))

-- `free(p);` of a node.
unfoldable pub free_node : Heap → ℕ → Exec Heap
free_node h p = do _ ← node_at h p; ok (λ a. if a == p then none else h a)

-- The loop of `LIST_FOREACH_TO_DEL` where a node is removed and given back, as in `_del_param_list`;
-- a loop that is not over after so many rounds is `none`. What the node's data points to is freed
-- before, in memory of its own.
unfoldable pub delete_nodes : ℕ → Heap → IwList → Exec (Option (IwList × Heap))
delete_nodes zero h list = ok none
delete_nodes (suc rounds) h list = if list.node_num == 0 then ok (some (list, h)) else (do
  _ ← node_at h list.head
  (_, left, h1) ← iw_remove_list_node h (some list) list.head
  h2 ← free_node h1 list.head
  elim left [ none ↦ ok none | some list' ↦ delete_nodes rounds h2 list' ])
