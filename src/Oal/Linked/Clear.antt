-- ===== src/Oal/Linked/Clear.antt =====
-- Deleting the nodes of a linked list, one after the other from its head.
use io_tware.Common.{
  ℕ, zero, suc, ◌%◌, ◌≡◌, ◌≢◌, ◌<◌, ◌≤◌, refl, sym, ap, ◌∙◌, Bool, true, false, Option, none, some,
  [], ◌∷◌, ok, ◌>>=◌, ◌==◌, if◌then◌else◌, All, length, take, drop, arith, ne→==_false, ==_refl,
  some_inj,
}
use io_tware.Oal.Fifo.{success}
use io_tware.Oal.Linked.{Node, Heap, IwList, put_node, iw_remove_list_node, free_node, delete_nodes}
use io_tware.Oal.Linked.Segment.{
  Cells, node, first_of, Segment, Apart, put-same, put-other, Segment-put,
}
use io_tware.Oal.Linked.Refine.{IsList, node_at-node, set_previous-node}
use io_tware.Oal.Linked.Unlink.{fewer, done, remove_head}

abbrev first_again : Node → Node
first_again n = record n { previous = 0 }

-- The heap after the head was removed, which is followed by `rest`.
abbrev without_head : Heap → Cells → Node → Heap
without_head h rest m = put_node h (first_of rest 0) (first_again m)

abbrev shorter : IwList → Cells → IwList
shorter list rest = record { head = first_of rest 0; node_num = fewer list.node_num }

head_gone :
    (h : Heap) (list : IwList) (c : ℕ × ℕ) (rest : Cells) (m : Node)
    → IsList h list (c ∷ rest)
    → h (first_of rest 0) ≡ some m
    → iw_remove_list_node h (some list) c.0
      ≡ ok (success, some (shorter list rest), without_head h rest m)
head_gone h list c rest m l e =
    ap (λ p. iw_remove_list_node h (some (record list { head = p })) c.0) l.starts
    ∙ remove_head h list.node_num c.0 (node (first_of rest 0) 0 c.1) l.linked.0 l.nonzero.0
    ∙ ap (λ r. r >>= done (first_of rest 0) list.node_num)
        (set_previous-node h (first_of rest 0) 0 m e)

rest-IsList :
    (h : Heap) (list : IwList) (c : ℕ × ℕ) (rest : Cells) (m : Node)
    → IsList h list (c ∷ rest)
    → h (first_of rest 0) ≡ some m
    → IsList (without_head h rest m) (shorter list rest) rest
rest-IsList h list c [] m l e = record {
  starts = refl;
  linked = tt;
  distinct = tt;
  nonzero = tt;
  counted = omega (arith, l.counted);
}
rest-IsList h list c (y ∷ post) m l e =
    let same = some_inj (sym e ∙ l.linked.1.0) in
    let m' = first_again m in
    record {
      starts = refl;
      linked = (
        put-same h y.0 m' ∙ ap (λ n. some (first_again n)) same,
        Segment-put h y.0 m' y.0 post 0 l.distinct.1.0 l.linked.1.1,
      );
      distinct = l.distinct.1;
      nonzero = l.nonzero.1;
      counted = omega (arith, l.counted);
    }

-- The heap without the node at `p`.
abbrev freed : Heap → ℕ → Heap
freed h p a = if a == p then none else h a

freed-other : (h : Heap) (p a : ℕ) → a ≢ p → freed h p a ≡ h a
freed-other h p a d = rw (ne→==_false a p d) refl

Segment-freed :
    (h : Heap) (a : ℕ) (start : ℕ) (cs : Cells) (end : ℕ)
    → Apart a cs
    → Segment h start cs end
    → Segment (freed h a) start cs end
Segment-freed h a start [] end d s = tt
Segment-freed h a start (c ∷ cs) end d s =
    (freed-other h a c.0 d.0 ∙ s.0, Segment-freed h a c.0 cs end d.1 s.1)

freed-IsList :
    (h : Heap) (list : IwList) (a : ℕ) (cs : Cells)
    → Apart a cs
    → IsList h list cs
    → IsList (freed h a) list cs
freed-IsList h list a cs d l = record {
  starts = l.starts;
  linked = Segment-freed h a 0 cs 0 d l.linked;
  distinct = l.distinct;
  nonzero = l.nonzero;
  counted = l.counted;
}

free-node : (h : Heap) (p : ℕ) (n : Node) → h p ≡ some n → free_node h p ≡ ok (freed h p)
unfolding free_node
free-node h p n e = rw (node_at-node h p n e) refl

follower :
    (h : Heap) (list : IwList) (c : ℕ × ℕ) (rest : Cells) (null : Node)
    → IsList h list (c ∷ rest)
    → h 0 ≡ some null
    → (m : Node) × (h (first_of rest 0) ≡ some m)
follower h list c [] null l e = (null, e)
follower h list c (y ∷ post) null l e = (node (first_of post 0) c.0 y.1, l.linked.1.0)

follower-other : (c : ℕ × ℕ) (rest : Cells) → Apart c.0 rest → c.0 ≢ 0 → c.0 ≢ first_of rest 0
follower-other c [] d z = z
follower-other c (y ∷ post) d z = λ e. d.0 (sym e)

null_stays :
    (h : Heap) (rest : Cells) (m null : Node)
    → Apart 0 rest
    → h 0 ≡ some null
    → (null' : Node) × (without_head h rest m 0 ≡ some null')
null_stays h [] m null z e = (first_again m, put-same h 0 (first_again m))
null_stays h (y ∷ post) m null z e =
    (null, put-other h y.0 0 (first_again m) (λ q. z.0 (sym q)) ∙ e)

-- The heap after a round: without the head, which was given back.
abbrev after_round : Heap → ℕ × ℕ → Cells → Node → Heap
after_round h c rest m = freed (without_head h rest m) c.0

empty_or_full : (n m : Node) → none ≢ some n
empty_or_full n m e = ground arith

freed-none : (h : Heap) (p a : ℕ) → h a ≡ none → freed h p a ≡ none
freed-none h p a e = if_either (a == p) (h a) e
  where
    if_either : (b : Bool) (o : Option Node) → o ≡ none → (if b then none else o) ≡ none
    if_either true o e = refl
    if_either false o e = e

-- An address without a node stays without one.
none-after_round :
    (h : Heap) (c : ℕ × ℕ) (rest : Cells) (m : Node) (a : ℕ)
    → h (first_of rest 0) ≡ some m
    → h a ≡ none
    → after_round h c rest m a ≡ none
none-after_round h c rest m a e n = freed-none (without_head h rest m) c.0 a (
    put-other h (first_of rest 0) a (first_again m) (λ q. empty_or_full m m (sym n ∙ ap h q ∙ e))
    ∙ n)

-- A round of the loop.
round :
    (rounds : ℕ) (h : Heap) (list : IwList) (c : ℕ × ℕ) (rest : Cells) (m : Node)
    → IsList h list (c ∷ rest)
    → h (first_of rest 0) ≡ some m
    → list.node_num ≢ 0
    → delete_nodes (suc rounds) h list
      ≡ delete_nodes rounds (after_round h c rest m) (shorter list rest)
unfolding delete_nodes
round rounds h list c rest m l e n =
    let at_c = l.linked.0 in
    let other = follower-other c rest l.distinct.0 l.nonzero.0 in
    ap (λ p. delete_nodes (suc rounds) h (record list { head = p })) l.starts
    ∙ rw
        (
          ne→==_false list.node_num 0 n,
          node_at-node h c.0 (node (first_of rest 0) 0 c.1) at_c,
          ap (λ p. iw_remove_list_node h (some (record list { head = p })) c.0) (sym l.starts)
              ∙ head_gone h list c rest m l e,
          free-node (without_head h rest m) c.0 (node (first_of rest 0) 0 c.1)
              (put-other h (first_of rest 0) c.0 (first_again m) other ∙ at_c),
        )
        refl

-- What deleting leaves of the cells `cs`, `k` of which are deleted.
record Deleted (h : Heap) (cs : Cells) (k : ℕ) (list' : IwList) (h' : Heap) : Type 0 where
  pub left : IsList h' list' (drop k cs)
  pub gone : All (λ c. h' c.0 ≡ none) (take k cs)
  pub nothing_new : (a : ℕ) → h a ≡ none → h' a ≡ none

delete-Deleted :
    (k rounds : ℕ) (h : Heap) (list : IwList) (cs : Cells) (null : Node)
    → IsList h list cs
    → h 0 ≡ some null
    → list.node_num ≡ k
    → k ≤ length cs
    → k < rounds
    → (list' : IwList) × (h' : Heap) × (delete_nodes rounds h list ≡ ok (some (list', h')))
      × Deleted h cs k list' h'
unfolding delete_nodes
delete-Deleted k zero h list cs null l e n w r = absurd (omega arith)
delete-Deleted zero (suc rounds) h list cs null l e n w r = (
  record list { node_num = 0 },
  h,
  ap (λ j. delete_nodes (suc rounds) h (record list { node_num = j })) n,
  record {
    left = record {
      starts = l.starts;
      linked = l.linked;
      distinct = l.distinct;
      nonzero = l.nonzero;
      counted = sym n ∙ l.counted;
    };
    gone = tt;
    nothing_new = λ a q. q;
  },
)
delete-Deleted (suc k) (suc rounds) h list [] null l e n w r = absurd (omega arith)
delete-Deleted (suc k) (suc rounds) h list (c ∷ rest) null l e n w r =
    let (m, at_next) = follower h list c rest null l e in
    let (null', e') = null_stays h rest m null l.nonzero.1 e in
    let h2 = after_round h c rest m in
    let l2 =
      freed-IsList (without_head h rest m) (shorter list rest) c.0 rest l.distinct.0
        (rest-IsList h list c rest m l at_next) in
    let (list', h', run, d) =
      delete-Deleted k rounds h2 (shorter list rest) rest null' l2
        (freed-other (without_head h rest m) c.0 0 (λ q. l.nonzero.0 (sym q)) ∙ e')
        (omega (arith, n, w)) (omega (arith, w)) (omega (arith, r)) in
    (
      list',
      h',
      round rounds h list c rest m l at_next (λ q. absurd (omega (arith, n, q))) ∙ run,
      record {
        left = d.left;
        gone = (d.nothing_new c.0 (rw (==_refl c.0) refl), d.gone);
        nothing_new = λ a q. d.nothing_new a (none-after_round h c rest m a at_next q);
      },
    )

-- On a machine where the address 0 can be written to, deleting the nodes of a list ends within 256
-- rounds, without undefined behaviour. It gives back as many nodes as the list's count of eight bits
-- says, the first ones, and leaves the list of the others: all nodes of a list of up to 255, and
-- none of one of 256.
pub delete_nodes-counted :
    (h : Heap) (list : IwList) (cs : Cells) (null : Node)
    → IsList h list cs
    → h 0 ≡ some null
    → (list' : IwList) × (h' : Heap) × (delete_nodes 256 h list ≡ ok (some (list', h')))
      × IsList h' list' (drop (length cs % 256) cs)
      × All (λ c. h' c.0 ≡ none) (take (length cs % 256) cs)
delete_nodes-counted h list cs null l e =
    let (list', h', run, d) =
      delete-Deleted (length cs % 256) 256 h list cs null l e l.counted (omega arith)
        (omega arith) in
    (list', h', run, d.left, d.gone)
