-- ===== src/Oal/Linked/Unlink.antt =====
-- The writes that take a node out of the linked list.
use io_tware.Common.{
  ℕ, ◌+◌, ◌%◌, ◌≡◌, ◌≢◌, refl, sym, ap, ◌∙◌, Option, some, [], ◌∷◌, ◌++◌, Exec, ok, ◌>>=◌, All,
  length-append, arith, ne→==_false, ==_refl,
}
use io_tware.Oal.Fifo.{IwError, success}
use io_tware.Oal.Linked.{
  Node, Heap, IwList, node_at, put_node, set_next, set_previous, iw_remove_list_node,
}
use io_tware.Oal.Linked.Segment.{
  Cells, node, first_of, last_of, Apart, put-same, put-other, Segment-put, Segment-split,
  Segment-join, All-split, All-join, Distinct-split, Distinct-join, Apart-first, Apart-rest,
}
use io_tware.Oal.Linked.Refine.{IsList, node_at-node, set_next-node, set_previous-node}

abbrev pub fewer : ℕ → ℕ
fewer k = (k + 255) % 256

pub remove_head :
    (h : Heap) (k x : ℕ) (n : Node)
    → h x ≡ some n
    → x ≢ 0
    → iw_remove_list_node h (some (record { head = x; node_num = k })) x ≡ (
        set_previous h n.next 0 >>= λ h'.
        ok (success, some (record { head = n.next; node_num = fewer k }), h'))
unfolding iw_remove_list_node
remove_head h k x n e z = rw (ne→==_false x 0 z, ==_refl x, node_at-node h x n e) refl

-- The end of a removal.
abbrev pub done : ℕ → ℕ → Heap → Exec (IwError × Option IwList × Heap)
done head k h = ok (success, some (record { head = head; node_num = fewer k }), h)

-- What removing a node that is not the first one does.
pub remove_inner :
    (h : Heap) (head k x : ℕ) (n : Node)
    → h x ≡ some n
    → x ≢ 0
    → x ≢ head
    → iw_remove_list_node h (some (record { head = head; node_num = k })) x ≡ (
        set_previous h n.next n.previous >>= λ h1.
        node_at h1 x >>= λ n1. set_next h1 n1.previous n1.next >>= done head k)
unfolding iw_remove_list_node
remove_inner h head k x n e z d =
    rw (ne→==_false x 0 z, ne→==_false x head d, node_at-node h x n e) refl

unfoldable pub Removed : Heap → IwList → ℕ → Cells → Type 0
Removed h list x cs =
    (list' : IwList) × (h' : Heap) × (iw_remove_list_node h (some list) x
      ≡ ok (success, some list', h'))
    × IsList h' list' cs

pub first-Removed :
    (h : Heap) (list : IwList) (c y : ℕ × ℕ) (post : Cells)
    → IsList h list (c ∷ y ∷ post)
    → Removed h list c.0 (y ∷ post)
unfolding Removed
first-Removed h list c y post l =
    let m = node (first_of post 0) 0 y.1 in
    let h' = put_node h y.0 m in
    (
      record { head = y.0; node_num = fewer list.node_num },
      h',
      ap (λ p. iw_remove_list_node h (some (record list { head = p })) c.0) l.starts
          ∙ remove_head h list.node_num c.0 (node y.0 0 c.1) l.linked.0 l.nonzero.0
          ∙ ap
              (λ r. r >>= λ h1.
                ok (success, some (record { head = y.0; node_num = fewer list.node_num }), h1))
              (set_previous-node h y.0 0 (node (first_of post 0) c.0 y.1) l.linked.1.0),
      record {
        starts = refl;
        linked = (put-same h y.0 m, Segment-put h y.0 m y.0 post 0 l.distinct.1.0 l.linked.1.1);
        distinct = l.distinct.1;
        nonzero = l.nonzero.1;
        counted = omega (arith, l.counted);
      },
    )

-- The first of the cells `q` and `w` is not a later one.
pub head-Apart :
    (q : Cells) (w c : ℕ × ℕ) (rest : Cells)
    → All (λ z. Apart z.0 (w ∷ c ∷ rest)) q
    → c.0 ≢ w.0
    → c.0 ≢ first_of (q ++ (w ∷ c ∷ rest)) 0
head-Apart [] w c rest a d = d
head-Apart (z ∷ q) w c rest a d = a.0.1.0

pub without_second :
    (q : Cells) (w c : ℕ × ℕ) (rest : Cells)
    → All (λ z. Apart z.0 (w ∷ c ∷ rest)) q
    → All (λ z. Apart z.0 (w ∷ rest)) q
without_second [] w c rest a = tt
without_second (z ∷ q) w c rest a = ((a.0.0, a.0.1.1), without_second q w c rest a.1)

pub head-without :
    (q : Cells) (w c : ℕ × ℕ) (rest : Cells)
    → first_of (q ++ (w ∷ c ∷ rest)) 0 ≡ first_of (q ++ (w ∷ rest)) 0
head-without [] w c rest = refl
head-without (z ∷ q) w c rest = refl

-- The writes of `remove_inner` for a node between those at `w` and `y`.
pub relink :
    (h : Heap) (head k : ℕ) (c w y : ℕ × ℕ) (ny nw : Node)
    → h c.0 ≡ some (node y.0 w.0 c.1)
    → h y.0 ≡ some ny
    → h w.0 ≡ some nw
    → c.0 ≢ y.0
    → w.0 ≢ y.0
    → (set_previous h y.0 w.0 >>= λ h1.
        node_at h1 c.0 >>= λ n1. set_next h1 n1.previous n1.next >>= done head k)
      ≡ done head k
          (put_node (put_node h y.0 (record ny { previous = w.0 })) w.0 (record nw { next = y.0 }))
relink h head k c w y ny nw ec ey ew c_y w_y =
    let h1 = put_node h y.0 (record ny { previous = w.0 }) in
    rw
      (
        set_previous-node h y.0 w.0 ny ey,
        node_at-node h1 c.0 (node y.0 w.0 c.1)
            (put-other h y.0 c.0 (record ny { previous = w.0 }) c_y ∙ ec),
        set_next-node h1 w.0 y.0 nw (put-other h y.0 w.0 (record ny { previous = w.0 }) w_y ∙ ew),
      )
      refl

-- A list whose cells are `q`, `w`, `c` and `rest`, with the heap after `c` was taken out.
pub inner-Removed :
    (h : Heap) (list : IwList) (q : Cells) (w c y : ℕ × ℕ) (post : Cells)
    → IsList h list (q ++ (w ∷ c ∷ y ∷ post))
    → Removed h list c.0 (q ++ (w ∷ y ∷ post))
unfolding Removed
inner-Removed h list q w c y post l =
    let (front, back) = Segment-split h 0 q (w ∷ c ∷ y ∷ post) 0 l.linked in
    let (dq, dr, apart) = Distinct-split q (w ∷ c ∷ y ∷ post) l.distinct in
    let (zq, zr) = All-split (λ x. x.0 ≢ 0) q (w ∷ c ∷ y ∷ post) l.nonzero in
    let lq = last_of 0 q in
    let n = node y.0 w.0 c.1 in
    let my = node (first_of post 0) w.0 y.1 in
    let mw = node y.0 lq w.1 in
    let h1 = put_node h y.0 my in
    let h2 = put_node h1 w.0 mw in
    let y_w : y.0 ≢ w.0 = dr.0.1.0 in
    let c_y : c.0 ≢ y.0 = λ e. dr.1.0.0 (sym e) in
    let w_y : w.0 ≢ y.0 = λ e. y_w (sym e) in
    let in_front = Apart-first q w (c ∷ y ∷ post) apart in
    let y_front =
      Apart-first q y post (Apart-rest q c (y ∷ post) (Apart-rest q w (c ∷ y ∷ post) apart)) in
    let length_old = length-append q (w ∷ c ∷ y ∷ post) in
    let length_new = length-append q (w ∷ y ∷ post) in
    (
      record { head = list.head; node_num = fewer list.node_num },
      h2,
      remove_inner h list.head list.node_num c.0 n back.1.0 zr.1.0
            (λ e. head-Apart q w c (y ∷ post) apart dr.0.0 (e ∙ l.starts))
          ∙ relink h list.head list.node_num c w y (node (first_of post 0) c.0 y.1)
              (node c.0 lq w.1) back.1.0 back.1.1.0 back.0 c_y w_y,
      record {
        starts = l.starts ∙ head-without q w c (y ∷ post);
        linked =
            Segment-join h2 0 q (w ∷ y ∷ post) 0
              (Segment-put h1 w.0 mw 0 q w.0 in_front (Segment-put h y.0 my 0 q w.0 y_front front))
              (
                put-same h1 w.0 mw,
                (
                  put-other h1 w.0 y.0 mw y_w ∙ put-same h y.0 my,
                  Segment-put h1 w.0 mw y.0 post 0 dr.0.1.1
                      (Segment-put h y.0 my y.0 post 0 dr.1.1.0 back.1.1.1),
                ),
              );
        distinct =
            Distinct-join q (w ∷ y ∷ post) dq (dr.0.1, dr.1.1)
              (without_second q w c (y ∷ post) apart);
        nonzero = All-join (λ x. x.0 ≢ 0) q (w ∷ y ∷ post) zq (zr.0, zr.1.1);
        counted = omega (arith, l.counted, length_old, length_new);
      },
    )
