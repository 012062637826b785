-- ===== src/Oal/Linked/Last.antt =====
-- Taking the last node out of the linked list, which writes to the node behind it, at the address 0.
use io_tware.Common.{
  ℕ, ◌≡◌, ◌≢◌, refl, ap, ◌∙◌, none, some, [], ◌∷◌, ◌++◌, ok, undefined, ◌>>=◌, length-append, arith,
}
use io_tware.Oal.Fifo.{success}
use io_tware.Oal.Linked.{Node, Heap, IwList, node_at, put_node, set_next, iw_remove_list_node}
use io_tware.Oal.Linked.Segment.{
  Cells, node, last_of, put-same, Segment-put, Segment-split, Segment-join, All-split, All-join,
  Distinct-split, Distinct-join, Apart-first,
}
use io_tware.Oal.Linked.Refine.{IsList, set_previous-node, set_previous-null}
use io_tware.Oal.Linked.Unlink.{
  fewer, done, remove_head, remove_inner, Removed, relink, head-Apart, without_second, head-without,
}

pub only_removed :
    (h : Heap) (list : IwList) (c : ℕ × ℕ)
    → IsList h list (c ∷ [])
    → h 0 ≡ none
    → iw_remove_list_node h (some list) c.0 ≡ undefined
only_removed h list c l null =
    ap (λ p. iw_remove_list_node h (some (record list { head = p })) c.0) l.starts
    ∙ remove_head h list.node_num c.0 (node 0 0 c.1) l.linked.0 l.nonzero.0
    ∙ ap
        (λ r.
          r >>= λ h1. ok (success, some (record { head = 0; node_num = fewer list.node_num }), h1))
        (set_previous-null h 0 null)

pub inner-last :
    (h : Heap) (list : IwList) (q : Cells) (w c : ℕ × ℕ)
    → IsList h list (q ++ (w ∷ c ∷ []))
    → h 0 ≡ none
    → iw_remove_list_node h (some list) c.0 ≡ undefined
inner-last h list q w c l null =
    let (front, back) = Segment-split h 0 q (w ∷ c ∷ []) 0 l.linked in
    let (dq, dr, apart) = Distinct-split q (w ∷ c ∷ []) l.distinct in
    let (zq, zr) = All-split (λ x. x.0 ≢ 0) q (w ∷ c ∷ []) l.nonzero in
    remove_inner h list.head list.node_num c.0 (node 0 w.0 c.1) back.1.0 zr.1.0
      (λ e. head-Apart q w c [] apart dr.0.0 (e ∙ l.starts))
    ∙ ap
        (λ r. r >>= λ h1.
          node_at h1 c.0 >>= λ n1. set_next h1 n1.previous n1.next >>= done list.head list.node_num)
        (set_previous-null h w.0 null)

pub only-Removed_writing :
    (h : Heap) (list : IwList) (c : ℕ × ℕ) (null : Node)
    → IsList h list (c ∷ [])
    → h 0 ≡ some null
    → Removed h list c.0 []
unfolding Removed
only-Removed_writing h list c null l e0 = (
  record { head = 0; node_num = fewer list.node_num },
  put_node h 0 (record null { previous = 0 }),
  ap (λ p. iw_remove_list_node h (some (record list { head = p })) c.0) l.starts
      ∙ remove_head h list.node_num c.0 (node 0 0 c.1) l.linked.0 l.nonzero.0
      ∙ ap (λ r. r >>= done 0 list.node_num) (set_previous-node h 0 0 null e0),
  record {
    starts = refl;
    linked = tt;
    distinct = tt;
    nonzero = tt;
    counted = omega (arith, l.counted);
  },
)

pub inner-last_writing :
    (h : Heap) (list : IwList) (q : Cells) (w c : ℕ × ℕ) (null : Node)
    → IsList h list (q ++ (w ∷ c ∷ []))
    → h 0 ≡ some null
    → Removed h list c.0 (q ++ (w ∷ []))
unfolding Removed
inner-last_writing h list q w c null l e0 =
    let (front, back) = Segment-split h 0 q (w ∷ c ∷ []) 0 l.linked in
    let (dq, dr, apart) = Distinct-split q (w ∷ c ∷ []) l.distinct in
    let (zq, zr) = All-split (λ x. x.0 ≢ 0) q (w ∷ c ∷ []) l.nonzero in
    let lq = last_of 0 q in
    let m0 = record null { previous = w.0 } in
    let mw = node 0 lq w.1 in
    let h1 = put_node h 0 m0 in
    let length_old = length-append q (w ∷ c ∷ []) in
    let length_new = length-append q (w ∷ []) in
    (
      record { head = list.head; node_num = fewer list.node_num },
      put_node h1 w.0 mw,
      remove_inner h list.head list.node_num c.0 (node 0 w.0 c.1) back.1.0 zr.1.0
            (λ e. head-Apart q w c [] apart dr.0.0 (e ∙ l.starts))
          ∙ relink h list.head list.node_num c w (0, 0) null (node c.0 lq w.1) back.1.0 e0 back.0
              zr.1.0 zr.0,
      record {
        starts = l.starts ∙ head-without q w c [];
        linked =
            Segment-join (put_node h1 w.0 mw) 0 q (w ∷ []) 0
              (Segment-put h1 w.0 mw 0 q w.0 (Apart-first q w (c ∷ []) apart)
                (Segment-put h 0 m0 0 q w.0 zq front))
              (put-same h1 w.0 mw, tt);
        distinct = Distinct-join q (w ∷ []) dq (tt, tt) (without_second q w c [] apart);
        nonzero = All-join (λ x. x.0 ≢ 0) q (w ∷ []) zq (zr.0, tt);
        counted = omega (arith, l.counted, length_old, length_new);
      },
    )
