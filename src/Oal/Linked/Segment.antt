-- ===== src/Oal/Linked/Segment.antt =====
-- Runs of linked nodes. A cell is a node's address and its data.
use io_tware.Common.{
  ℕ, ◌≡◌, ◌≢◌, refl, sym, ap, ◌∙◌, ◌⊎◌, inl, inr, some, List, [], ◌∷◌, ◌++◌, All, ne→==_false,
  ==_refl,
}
use io_tware.Oal.Linked.{Node, Heap, put_node}

abbrev pub Cells : Type 0
Cells = List (ℕ × ℕ)

abbrev pub node : ℕ → ℕ → ℕ → Node
node next previous p_data = record { next = next; previous = previous; p_data = p_data }

-- The address that a run starts with, where `end` comes behind it.
abbrev pub first_of : Cells → ℕ → ℕ
first_of [] end = end
first_of (c ∷ cs) end = c.0

-- The address that a run ends with, where `start` comes before it.
abbrev pub last_of : ℕ → Cells → ℕ
last_of start [] = start
last_of start (c ∷ cs) = last_of c.0 cs

-- The cells are nodes of the heap, each linked with the one before and the one behind.
abbrev pub Segment : Heap → ℕ → Cells → ℕ → Type 0
Segment h start [] end = Unit
Segment h start (c ∷ cs) end =
    (h c.0 ≡ some (node (first_of cs end) start c.1)) × Segment h c.0 cs end

-- No cell is at an address.
abbrev pub Apart : ℕ → Cells → Type 0
Apart a cs = All (λ c. c.0 ≢ a) cs

abbrev pub Distinct : Cells → Type 0
Distinct [] = Unit
Distinct (c ∷ cs) = Apart c.0 cs × Distinct cs

pub put-same : (h : Heap) (p : ℕ) (n : Node) → put_node h p n p ≡ some n
unfolding put_node
put-same h p n = rw (==_refl p) refl

pub put-other : (h : Heap) (p a : ℕ) (n : Node) → a ≢ p → put_node h p n a ≡ h a
unfolding put_node
put-other h p a n d = rw (ne→==_false a p d) refl

-- A write elsewhere leaves a run.
pub Segment-put :
    (h : Heap) (a : ℕ) (n : Node) (start : ℕ) (cs : Cells) (end : ℕ)
    → Apart a cs
    → Segment h start cs end
    → Segment (put_node h a n) start cs end
Segment-put h a n start [] end d s = tt
Segment-put h a n start (c ∷ cs) end d s =
    (put-other h a c.0 n d.0 ∙ s.0, Segment-put h a n c.0 cs end d.1 s.1)

first-append : (xs ys : Cells) (end : ℕ) → first_of (xs ++ ys) end ≡ first_of xs (first_of ys end)
first-append [] ys end = refl
first-append (c ∷ xs) ys end = refl

pub Segment-split :
    (h : Heap) (start : ℕ) (xs ys : Cells) (end : ℕ)
    → Segment h start (xs ++ ys) end
    → Segment h start xs (first_of ys end) × Segment h (last_of start xs) ys end
Segment-split h start [] ys end s = (tt, s)
Segment-split h start (c ∷ xs) ys end s =
    let (front, back) = Segment-split h c.0 xs ys end s.1 in
    ((s.0 ∙ ap (λ q. some (node q start c.1)) (first-append xs ys end), front), back)

pub Segment-join :
    (h : Heap) (start : ℕ) (xs ys : Cells) (end : ℕ)
    → Segment h start xs (first_of ys end)
    → Segment h (last_of start xs) ys end
    → Segment h start (xs ++ ys) end
Segment-join h start [] ys end f b = b
Segment-join h start (c ∷ xs) ys end f b = (
  f.0 ∙ ap (λ q. some (node q start c.1)) (sym (first-append xs ys end)),
  Segment-join h c.0 xs ys end f.1 b,
)

pub All-split : (P : ℕ × ℕ → Type 0) (xs ys : Cells) → All P (xs ++ ys) → All P xs × All P ys
All-split P [] ys a = (tt, a)
All-split P (c ∷ xs) ys a = let (f, b) = All-split P xs ys a.1 in ((a.0, f), b)

pub All-join : (P : ℕ × ℕ → Type 0) (xs ys : Cells) → All P xs → All P ys → All P (xs ++ ys)
All-join P [] ys f b = b
All-join P (c ∷ xs) ys f b = (f.0, All-join P xs ys f.1 b)

-- Distinct cells in two runs: each distinct, and no cell of one in the other.
pub Distinct-split :
    (xs ys : Cells) → Distinct (xs ++ ys) → Distinct xs × Distinct ys × All (λ c. Apart c.0 ys) xs
Distinct-split [] ys d = (tt, d, tt)
Distinct-split (c ∷ xs) ys d =
    let (f, b) = All-split (λ x. x.0 ≢ c.0) xs ys d.0 in
    let (dx, dy, apart) = Distinct-split xs ys d.1 in ((f, dx), dy, (b, apart))

pub Distinct-join :
    (xs ys : Cells) → Distinct xs → Distinct ys → All (λ c. Apart c.0 ys) xs → Distinct (xs ++ ys)
Distinct-join [] ys dx dy a = dy
Distinct-join (c ∷ xs) ys dx dy a =
    (All-join (λ x. x.0 ≢ c.0) xs ys dx.0 a.0, Distinct-join xs ys dx.1 dy a.1)

-- A cell of the second run is apart from the first.
pub Apart-first :
    (xs : Cells) (y : ℕ × ℕ) (ys : Cells) → All (λ c. Apart c.0 (y ∷ ys)) xs → Apart y.0 xs
Apart-first [] y ys a = tt
Apart-first (c ∷ xs) y ys a = (λ e. a.0.0 (sym e), Apart-first xs y ys a.1)

pub Apart-rest :
    (xs : Cells) (y : ℕ × ℕ) (ys : Cells)
    → All (λ c. Apart c.0 (y ∷ ys)) xs
    → All (λ c. Apart c.0 ys) xs
Apart-rest [] y ys a = tt
Apart-rest (c ∷ xs) y ys a = (a.0.1, Apart-rest xs y ys a.1)

pub snoc_or_nil : (xs : Cells) → (xs ≡ []) ⊎ ((q : Cells) × (p : ℕ × ℕ) × (xs ≡ q ++ (p ∷ [])))
snoc_or_nil [] = inl refl
snoc_or_nil (c ∷ xs) = elim (snoc_or_nil xs) [
  | inl e ↦ inr ([], c, ap (λ r. c ∷ r) e)
  | inr (q, p, e) ↦ inr (c ∷ q, p, ap (λ r. c ∷ r) e)
]
