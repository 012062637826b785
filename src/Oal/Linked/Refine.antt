-- ===== src/Oal/Linked/Refine.antt =====
-- The linked list as the sequence of its cells.
use io_tware.Common.{
  ℕ, ◌+◌, ◌%◌, ◌≡◌, ◌≢◌, refl, sym, ap, ◌∙◌, ◌⊎◌, inl, inr, Option, none, some, [], ◌∷◌, ok,
  undefined, ◌>>=◌, length, arith, ne→==_false,
}
use io_tware.Oal.Fifo.{success}
use io_tware.Oal.Linked.{
  Node, Heap, IwList, loaded, node_at, put_node, set_next, set_previous, iw_add_list_node,
}
use io_tware.Oal.Linked.Segment.{
  Cells, node, first_of, Segment, Apart, Distinct, put-same, put-other, Segment-put,
}

-- The list holds these cells, in this order.
pub record IsList (h : Heap) (list : IwList) (cs : Cells) : Type 0 where
  pub starts : list.head ≡ first_of cs 0
  pub linked : Segment h 0 cs 0
  pub distinct : Distinct cs
  pub nonzero : Apart 0 cs
  pub counted : list.node_num ≡ length cs % 256

pub node_at-node : (h : Heap) (p : ℕ) (n : Node) → h p ≡ some n → node_at h p ≡ ok n
unfolding node_at
node_at-node h p n e = ap loaded e

pub set_next-node :
    (h : Heap) (p q : ℕ) (n : Node)
    → h p ≡ some n
    → set_next h p q ≡ ok (put_node h p (record n { next = q }))
unfolding set_next
set_next-node h p q n e = rw (node_at-node h p n e) refl

pub set_previous-node :
    (h : Heap) (p q : ℕ) (n : Node)
    → h p ≡ some n
    → set_previous h p q ≡ ok (put_node h p (record n { previous = q }))
unfolding set_previous
set_previous-node h p q n e = rw (node_at-node h p n e) refl

pub set_previous-null : (h : Heap) (q : ℕ) → h 0 ≡ none → set_previous h 0 q ≡ undefined
unfolding set_previous node_at
set_previous-null h q e =
    ap (λ x. loaded x >>= λ n. ok (put_node h 0 (record n { previous = q }))) e

-- The heap with the node `a` put in front of the node at `x`.
linked_in : Heap → ℕ → Node → ℕ → Heap
linked_in h a n x =
    put_node (put_node h a (record n { next = x })) a (record n { next = x; previous = 0 })

linked_in-same :
    (h : Heap) (a : ℕ) (n : Node) (x : ℕ) → linked_in h a n x a ≡ some (node x 0 n.p_data)
unfolding linked_in
linked_in-same h a n x =
    put-same (put_node h a (record n { next = x })) a (record n { next = x; previous = 0 })

linked_in-other : (h : Heap) (a : ℕ) (n : Node) (x p : ℕ) → p ≢ a → linked_in h a n x p ≡ h p
unfolding linked_in
linked_in-other h a n x p d =
    put-other (put_node h a (record n { next = x })) a p (record n { next = x; previous = 0 }) d
    ∙ put-other h a p (record n { next = x }) d

add_to :
    (h : Heap) (x k a : ℕ) (n : Node)
    → h a ≡ some n
    → a ≢ 0
    → iw_add_list_node h (some (record { head = x; node_num = k })) a ≡ (
        set_previous (linked_in h a n x) x a >>= λ h'.
        ok (success, some (record { head = a; node_num = (k + 1) % 256 }), h'))
unfolding iw_add_list_node linked_in
add_to h x k a n e z =
    rw
      (
        ne→==_false a 0 z,
        set_next-node h a x n e,
        set_previous-node (put_node h a (record n { next = x })) a 0 (record n { next = x })
            (put-same h a (record n { next = x })),
        node_at-node (linked_in h a n x) a (record n { next = x; previous = 0 })
            (linked_in-same h a n x),
      )
      refl

linked_in-Segment :
    (h : Heap) (a : ℕ) (n : Node) (x start : ℕ) (cs : Cells) (end : ℕ)
    → Apart a cs
    → Segment h start cs end
    → Segment (linked_in h a n x) start cs end
unfolding linked_in
linked_in-Segment h a n x start cs end d s =
    Segment-put (put_node h a (record n { next = x })) a (record n { next = x; previous = 0 }) start
      cs end d (Segment-put h a (record n { next = x }) start cs end d s)

Added : Heap → IwList → ℕ → Cells → Type 0
Added h list a cs =
    (list' : IwList) × (h' : Heap) × (iw_add_list_node h (some list) a
      ≡ ok (success, some list', h'))
    × IsList h' list' cs

add_front :
    (h : Heap) (list : IwList) (c : ℕ × ℕ) (cs : Cells) (a : ℕ) (n : Node)
    → IsList h list (c ∷ cs)
    → h a ≡ some n
    → a ≢ 0
    → Apart a (c ∷ cs)
    → Added h list a ((a, n.p_data) ∷ c ∷ cs)
unfolding Added
add_front h list c cs a n l e z d =
    let x = c.0 in
    let h2 = linked_in h a n x in
    let m = node (first_of cs 0) 0 c.1 in
    let at_x = linked_in-other h a n x x d.0 ∙ l.linked.0 in
    let h3 = put_node h2 x (record m { previous = a }) in
    (
      record { head = a; node_num = (list.node_num + 1) % 256 },
      h3,
      ap (λ p. iw_add_list_node h (some (record list { head = p })) a) l.starts
          ∙ add_to h x list.node_num a n e z
          ∙ ap
              (λ r. r >>= λ h'.
                ok (success, some (record { head = a; node_num = (list.node_num + 1) % 256 }), h'))
              (set_previous-node h2 x a m at_x),
      record {
        starts = refl;
        linked = (
          put-other h2 x a (record m { previous = a }) (λ q. d.0 (sym q)) ∙ linked_in-same h a n x,
          (
            put-same h2 x (record m { previous = a }),
            Segment-put h2 x (record m { previous = a }) x cs 0 l.distinct.0
                (linked_in-Segment h a n x x cs 0 d.1 l.linked.1),
          ),
        );
        distinct = (d, l.distinct);
        nonzero = (z, l.nonzero);
        counted = omega (arith, l.counted);
      },
    )

add_empty :
    (h : Heap) (list : IwList) (a : ℕ) (n : Node)
    → IsList h list []
    → h 0 ≡ none
    → h a ≡ some n
    → a ≢ 0
    → iw_add_list_node h (some list) a ≡ undefined
add_empty h list a n l null e z =
    ap (λ p. iw_add_list_node h (some (record list { head = p })) a) l.starts
    ∙ add_to h 0 list.node_num a n e z
    ∙ ap
        (λ r. r >>= λ h'.
          ok (success, some (record { head = a; node_num = (list.node_num + 1) % 256 }), h'))
        (set_previous-null (linked_in h a n 0) a
          (linked_in-other h a n 0 0 (λ q. z (sym q)) ∙ null))

-- Where the address 0 can be written to, that write does no harm.
add_only :
    (h : Heap) (list : IwList) (a : ℕ) (n null : Node)
    → IsList h list []
    → h 0 ≡ some null
    → h a ≡ some n
    → a ≢ 0
    → Added h list a ((a, n.p_data) ∷ [])
unfolding Added
add_only h list a n null l e0 e z =
    let h2 = linked_in h a n 0 in
    let m = record null { previous = a } in
    (
      record { head = a; node_num = (list.node_num + 1) % 256 },
      put_node h2 0 m,
      ap (λ p. iw_add_list_node h (some (record list { head = p })) a) l.starts
          ∙ add_to h 0 list.node_num a n e z
          ∙ ap
              (λ r. r >>= λ h'.
                ok (success, some (record { head = a; node_num = (list.node_num + 1) % 256 }), h'))
              (set_previous-node h2 0 a null (linked_in-other h a n 0 0 (λ q. z (sym q)) ∙ e0)),
      record {
        starts = refl;
        linked = (put-other h2 0 a m z ∙ linked_in-same h a n 0, tt);
        distinct = (tt, tt);
        nonzero = (z, tt);
        counted = omega (arith, l.counted);
      },
    )

pub null-cases : (o : Option Node) → (o ≡ none) ⊎ ((n : Node) × (o ≡ some n))
null-cases none = inl refl
null-cases (some n) = inr (n, refl)

add_first :
    (h : Heap) (list : IwList) (a : ℕ) (n : Node)
    → IsList h list []
    → h a ≡ some n
    → a ≢ 0
    → (h 0 ≡ none) ⊎ ((null : Node) × (h 0 ≡ some null))
    → ((h 0 ≡ none) × (iw_add_list_node h (some list) a ≡ undefined))
      ⊎ Added h list a ((a, n.p_data) ∷ [])
add_first h list a n l e z (inl e0) = inl (e0, add_empty h list a n l e0 e z)
add_first h list a n l e z (inr (null, e0)) = inr (add_only h list a n null l e0 e z)

-- Adding a node that is not in a list puts it in front of the list's cells. Only for a list without
-- cells on a machine that has nothing at the address 0 it is undefined: it writes there.
pub add-IsList :
    (h : Heap) (list : IwList) (cs : Cells) (a : ℕ) (n : Node)
    → IsList h list cs
    → h a ≡ some n
    → a ≢ 0
    → Apart a cs
    → ((cs ≡ []) × (h 0 ≡ none) × (iw_add_list_node h (some list) a ≡ undefined))
      ⊎ ((list' : IwList) × (h' : Heap) × (iw_add_list_node h (some list) a
            ≡ ok (success, some list', h'))
          × IsList h' list' ((a, n.p_data) ∷ cs))
unfolding Added
add-IsList h list [] a n l e z d = elim (add_first h list a n l e z (null-cases (h 0))) [
  | inl (e0, faults) ↦ inl (refl, e0, faults)
  | inr done ↦ inr done
]
add-IsList h list (c ∷ cs) a n l e z d = inr (add_front h list c cs a n l e z d)
