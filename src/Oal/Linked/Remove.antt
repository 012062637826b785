-- ===== src/Oal/Linked/Remove.antt =====
-- Removing a node from the linked list, as taking its cell out of the sequence.
use io_tware.Common.{
  ℕ, ◌≡◌, refl, sym, ◌⊎◌, inl, inr, none, some, [], ◌∷◌, ◌++◌, append_assoc, ok, undefined, subst,
}
use io_tware.Oal.Fifo.{success}
use io_tware.Oal.Linked.{Heap, IwList, iw_remove_list_node}
use io_tware.Oal.Linked.Segment.{Cells, snoc_or_nil}
use io_tware.Oal.Linked.Refine.{IsList, null-cases}
use io_tware.Oal.Linked.Unlink.{Removed, first-Removed, inner-Removed}
use io_tware.Oal.Linked.Last.{only_removed, only-Removed_writing, inner-last, inner-last_writing}

-- What removing the cell `c` between `pre` and `post` does: it leaves the list of the others, unless
-- `c` is the last cell and there is nothing at the address 0.
Removes : Heap → IwList → Cells → ℕ × ℕ → Cells → Type 0
Removes h list pre c post =
    ((post ≡ []) × (h 0 ≡ none) × (iw_remove_list_node h (some list) c.0 ≡ undefined))
    ⊎ Removed h list c.0 (pre ++ post)

inner-Removes :
    (h : Heap) (list : IwList) (q : Cells) (w c : ℕ × ℕ) (post : Cells)
    → IsList h list (q ++ (w ∷ c ∷ post))
    → Removes h list (q ++ (w ∷ [])) c post
unfolding Removes
inner-Removes h list q w c [] l = elim (null-cases (h 0)) [
  | inl e0 ↦ inl (refl, e0, inner-last h list q w c l e0)
  | inr (null, e0) ↦ inr (
      subst (Removed h list c.0) (sym (append_assoc q (w ∷ []) []))
        (inner-last_writing h list q w c null l e0))
]
inner-Removes h list q w c (y ∷ post) l = inr (
    subst (Removed h list c.0) (sym (append_assoc q (w ∷ []) (y ∷ post)))
      (inner-Removed h list q w c y post l))

first-Removes :
    (h : Heap) (list : IwList) (c : ℕ × ℕ) (post : Cells)
    → IsList h list (c ∷ post)
    → Removes h list [] c post
unfolding Removes
first-Removes h list c [] l = elim (null-cases (h 0)) [
  | inl e0 ↦ inl (refl, e0, only_removed h list c l e0)
  | inr (null, e0) ↦ inr (only-Removed_writing h list c null l e0)
]
first-Removes h list c (y ∷ post) l = inr (first-Removed h list c y post l)

any-Removes :
    (h : Heap) (list : IwList) (pre : Cells) (c : ℕ × ℕ) (post : Cells)
    → (pre ≡ []) ⊎ ((q : Cells) × (w : ℕ × ℕ) × (pre ≡ q ++ (w ∷ [])))
    → IsList h list (pre ++ (c ∷ post))
    → Removes h list pre c post
any-Removes h list pre c post (inl e) l =
    subst (λ p. Removes h list p c post) (sym e)
      (first-Removes h list c post (subst (λ p. IsList h list (p ++ (c ∷ post))) e l))
any-Removes h list pre c post (inr (q, w, e)) l =
    let l' = subst (λ p. IsList h list (p ++ (c ∷ post))) e l in
    subst (λ p. Removes h list p c post) (sym e)
      (inner-Removes h list q w c post
        (subst (IsList h list) (append_assoc q (w ∷ []) (c ∷ post)) l'))

-- Removing a node of a list takes its cell out of the sequence, and the other cells stay linked as
-- they were. Only for the last cell on a machine that has nothing at the address 0 it is undefined:
-- it writes there.
pub remove-IsList :
    (h : Heap) (list : IwList) (pre : Cells) (c : ℕ × ℕ) (post : Cells)
    → IsList h list (pre ++ (c ∷ post))
    → ((post ≡ []) × (h 0 ≡ none) × (iw_remove_list_node h (some list) c.0 ≡ undefined))
      ⊎ ((list' : IwList) × (h' : Heap) × (iw_remove_list_node h (some list) c.0
            ≡ ok (success, some list', h'))
          × IsList h' list' (pre ++ post))
unfolding Removes Removed
remove-IsList h list pre c post l = any-Removes h list pre c post (snoc_or_nil pre) l
