-- ===== src/Smfw/Links/Tree.antt =====
-- What make_task_links builds, and the way through it.
use io_tware.Common.{
  ℕ, ◌≡◌, ◌≢◌, refl, sym, ap, ◌∙◌, Bool, true, false, Bool-cases, inl, inr, Option, none, some,
  List, [], ◌∷◌, ◌++◌, subst, append_assoc, if◌then◌else◌, ==_refl, ne→==_false, All, arith, ◌⊎◌,
}
use io_tware.Sifw.Text.{Text}
use io_tware.Smfw.State.{TaskInfo, ConnectLine, TaskLink, null, link}
use io_tware.Smfw.Links.{
  new_link, extend_links, or_first, add_task_link, make_links_loop, last_link, make_task_links,
  is_last, find_last_task_link, link_at, set_link_at, link_lines, link_name,
}

-- The tree for tasks in a row, which a task that can be off continues both ways.
unfoldable pub row : List TaskInfo → TaskLink → TaskLink
row [] end = end
row (t ∷ tasks) end =
    link (some t.address) (row tasks end) (if t.offloading then row tasks end else null) none []

unfoldable pub tree : List TaskInfo → TaskLink
tree [] = null
tree (t ∷ []) = if t.offloading then row (t ∷ []) (new_link none) else new_link (some t.address)
tree (t ∷ u ∷ tasks) =
    link (some t.address) (tree (u ∷ tasks)) (if t.offloading then tree (u ∷ tasks) else null) none
      []

-- No task of the list has the address.
abbrev pub Elsewhere : ℕ → List TaskInfo → Type 0
Elsewhere i tasks = All (λ t. t.address ≢ i) tasks

-- Every task has its own address.
abbrev pub OwnAddress : List TaskInfo → Type 0
OwnAddress [] = Unit
OwnAddress (t ∷ tasks) = Elsewhere t.address tasks × OwnAddress tasks

extend-row :
    (tasks : List TaskInfo) (i : ℕ) (b : Bool) (dest : Option ℕ)
    → Elsewhere i tasks
    → extend_links (row tasks (new_link (some i))) i b dest
      ≡ row tasks (link (some i) (new_link dest) (if b then new_link dest else null) none [])
unfolding extend_links row
extend-row [] i b dest h = rw (==_refl i)
extend-row (t ∷ tasks) i b dest h = elim (Bool-cases t.offloading) [
  | inl e ↦ rw (ne→==_false t.address i h.0, e, extend-row tasks i b dest h.1)
  | inr e ↦ rw (ne→==_false t.address i h.0, e, extend-row tasks i b dest h.1)
]

row-snoc :
    (tasks : List TaskInfo) (r : TaskInfo) (end : TaskLink)
    → row (tasks ++ (r ∷ [])) end
      ≡ row tasks (link (some r.address) end (if r.offloading then end else null) none [])
unfolding row
row-snoc [] r end = refl
row-snoc (t ∷ tasks) r end =
    ap (λ k. link (some t.address) k (if t.offloading then k else null) none [])
      (row-snoc tasks r end)

or_first-row :
    (tasks : List TaskInfo) (i j : ℕ)
    → or_first (row tasks (new_link (some i))) j ≡ row tasks (new_link (some i))
unfolding row
or_first-row [] i j = refl
or_first-row (t ∷ tasks) i j = refl

-- Linking the last task of a row to the next one.
add_task_link-row :
    (tasks : List TaskInfo) (r : TaskInfo) (dest : Option ℕ)
    → Elsewhere r.address tasks
    → add_task_link (row tasks (new_link (some r.address))) r dest
      ≡ row (tasks ++ (r ∷ [])) (new_link dest)
unfolding add_task_link
add_task_link-row tasks r dest h =
    ap (λ k. extend_links k r.address r.offloading dest) (or_first-row tasks r.address r.address)
    ∙ extend-row tasks r.address r.offloading dest h
    ∙ sym (row-snoc tasks r (new_link dest))

row-tree :
    (pre : List TaskInfo) (r : TaskInfo) (rest : List TaskInfo)
    → row pre (tree (r ∷ rest)) ≡ tree (pre ++ (r ∷ rest))
unfolding row tree
row-tree [] r rest = refl
row-tree (t ∷ []) r rest = refl
row-tree (t ∷ u ∷ pre) r rest =
    ap (λ k. link (some t.address) k (if t.offloading then k else null) none [])
      (row-tree (u ∷ pre) r rest)

Elsewhere-append :
    (i : ℕ) (pre : List TaskInfo) (r : TaskInfo) (rest : List TaskInfo)
    → Elsewhere i (pre ++ (r ∷ rest))
    → r.address ≢ i
Elsewhere-append i [] r rest h = h.0
Elsewhere-append i (t ∷ pre) r rest h = Elsewhere-append i pre r rest h.1

OwnAddress-Elsewhere :
    (pre : List TaskInfo) (r : TaskInfo) (rest : List TaskInfo)
    → OwnAddress (pre ++ (r ∷ rest))
    → Elsewhere r.address pre
OwnAddress-Elsewhere [] r rest h = tt
OwnAddress-Elsewhere (t ∷ pre) r rest h =
    (λ e. Elsewhere-append t.address pre r rest h.0 (sym e), OwnAddress-Elsewhere pre r rest h.1)

if-row :
    (pre : List TaskInfo) (b : Bool) (x x' y : TaskLink)
    → x ≡ row pre x'
    → (if b then x else row pre y) ≡ row pre (if b then x' else y)
if-row pre true x x' y e = e
if-row pre false x x' y e = refl

last_link-tree :
    (pre : List TaskInfo) (r : TaskInfo)
    → Elsewhere r.address pre
    → last_link (row pre (new_link (some r.address)), some r) ≡ row pre (tree (r ∷ []))
unfolding tree row
last_link-tree pre r h =
    if-row pre r.offloading (add_task_link (row pre (new_link (some r.address))) r none)
      (row (r ∷ []) (new_link none)) (new_link (some r.address))
      (add_task_link-row pre r none h ∙ row-snoc pre r (new_link none))

loop-tree :
    (pre : List TaskInfo) (l r : TaskInfo) (rest : List TaskInfo)
    → OwnAddress (pre ++ (r ∷ rest))
    → last_link (make_links_loop (row pre (new_link (some r.address))) (some l) (some r) rest)
      ≡ tree (pre ++ (r ∷ rest))
unfolding make_links_loop
loop-tree pre l r [] h = last_link-tree pre r (OwnAddress-Elsewhere pre r [] h) ∙ row-tree pre r []
loop-tree pre l r (u ∷ rest) h =
    ap (λ k. last_link (make_links_loop k (some r) (some u) rest))
      (add_task_link-row pre r (some u.address) (OwnAddress-Elsewhere pre r (u ∷ rest) h))
    ∙ loop-tree (pre ++ (r ∷ [])) r u rest
        (subst OwnAddress (sym (append_assoc pre (r ∷ []) (u ∷ rest))) h)
    ∙ ap tree (append_assoc pre (r ∷ []) (u ∷ rest))

-- Of two tasks or more, each with an address of its own, make_task_links makes the tree.
pub make_task_links-tree :
    (t u : TaskInfo) (tasks : List TaskInfo)
    → OwnAddress (t ∷ u ∷ tasks)
    → make_task_links null (t ∷ u ∷ tasks) ≡ tree (t ∷ u ∷ tasks)
unfolding make_task_links row
make_task_links-tree t u tasks h =
    ap (λ k. last_link (make_links_loop k (some t) (some u) tasks))
      (add_task_link-row [] t (some u.address) tt)
    ∙ loop-tree (t ∷ []) t u tasks h

-- The answers of a test for the tasks that have a way on.
unfoldable pub answers : (Option ℕ → Bool) → List TaskInfo → List Bool
answers test [] = []
answers test (t ∷ []) = if t.offloading then test (some t.address) ∷ [] else []
answers test (t ∷ u ∷ tasks) = test (some t.address) ∷ answers test (u ∷ tasks)

-- The tasks that have a way on and cannot be off pass the test.
unfoldable pub FixedOn : (Option ℕ → Bool) → List TaskInfo → Type 0
FixedOn test [] = Unit
FixedOn test (t ∷ []) = Unit
FixedOn test (t ∷ u ∷ tasks) =
    ((t.offloading ≡ true) ⊎ (test (some t.address) ≡ true)) × FixedOn test (u ∷ tasks)

abbrev pub IsLink : TaskLink → Type 0
IsLink null = ⊥
IsLink (link task on off clinks oname) = Unit

if-IsLink : (b : Bool) (x y : TaskLink) → IsLink x → IsLink y → IsLink (if b then x else y)
if-IsLink true x y h k = h
if-IsLink false x y h k = k

tree-IsLink : (t : TaskInfo) (tasks : List TaskInfo) → IsLink (tree (t ∷ tasks))
unfolding tree row
tree-IsLink t [] =
    if-IsLink t.offloading (row (t ∷ []) (new_link none)) (new_link (some t.address)) tt tt
tree-IsLink t (u ∷ tasks) = tt

is_last-IsLink : (on off : TaskLink) → IsLink on → is_last on off ≡ false
is_last-IsLink null off h = elim h [ ]
is_last-IsLink (link task a b clinks oname) off h = refl

if-find :
    (b : Bool) (x y : TaskLink) (test : Option ℕ → Bool) (v w : List Bool)
    → (b ≡ true → find_last_task_link x test ≡ some v)
    → find_last_task_link y test ≡ some w
    → find_last_task_link (if b then x else y) test ≡ some (if b then v else w)
if-find true x y test v w e f = e refl
if-find false x y test v w e f = f

-- A link whose way on is a link, and whose way off is one where it is taken.
find-link :
    (test : Option ℕ → Bool) (task : Option ℕ) (b : Bool) (next : TaskLink) (v : List Bool)
    → (b ≡ true) ⊎ (test task ≡ true)
    → IsLink next
    → find_last_task_link next test ≡ some v
    → find_last_task_link (link task next (if b then next else null) none []) test
      ≡ some (test task ∷ v)
unfolding find_last_task_link
find-link test task b next v h l e = elim (Bool-cases (test task)) [
  | inl q ↦ rw (is_last-IsLink next (if b then next else null) l, q, e)
  | inr q ↦ elim h [
    | inl o ↦ rw (o, is_last-IsLink next next l, q, e)
    | inr o ↦ let no : true ≡ false = sym o ∙ q in absurd (ground arith)
  ]
]

-- Where the tasks that cannot be off are on, the way through the tree is the list of the answers
-- of the test.
pub find-tree :
    (test : Option ℕ → Bool) (t : TaskInfo) (tasks : List TaskInfo)
    → FixedOn test (t ∷ tasks)
    → find_last_task_link (tree (t ∷ tasks)) test ≡ some (answers test (t ∷ tasks))
unfolding find_last_task_link tree answers FixedOn row
find-tree test t [] h =
    if-find t.offloading (row (t ∷ []) (new_link none)) (new_link (some t.address)) test
      (test (some t.address) ∷ []) []
      (λ o. find-link test (some t.address) t.offloading (new_link none) [] (inl o) tt refl) refl
find-tree test t (u ∷ tasks) h =
    find-link test (some t.address) t.offloading (tree (u ∷ tasks)) (answers test (u ∷ tasks)) h.0
      (tree-IsLink u tasks) (find-tree test u tasks h.1)

-- What is set at the end of a way is found there, and at no other way that ends in the tree.
abbrev pub InTree : TaskLink → List Bool → Type 0
InTree l way = IsLink (link_at l way)

pub link_at-set :
    (l : TaskLink) (way : List Bool) (clinks : Option (List (Option ConnectLine))) (oname : Text)
    → InTree l way
    → (link_lines (link_at (set_link_at l way clinks oname) way) ≡ clinks)
      × (link_name (link_at (set_link_at l way clinks oname) way) ≡ oname)
unfolding link_at set_link_at
link_at-set null [] clinks oname h = elim h [ ]
link_at-set null (b ∷ way) clinks oname h = elim h [ ]
link_at-set (link task on off old old_name) [] clinks oname h = (refl, refl)
link_at-set (link task on off old old_name) (true ∷ way) clinks oname h =
    link_at-set on way clinks oname h
link_at-set (link task on off old old_name) (false ∷ way) clinks oname h =
    link_at-set off way clinks oname h
