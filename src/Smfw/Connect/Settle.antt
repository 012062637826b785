-- ===== src/Smfw/Connect/Settle.antt =====
-- Which lines set_output_connect_line connects after set_connect_link.
use io_tware.Common.{
  ℕ, ◌≡◌, refl, ap, ap₂, ◌∙◌, subst, Bool, true, inl, inr, Option, none, some, List, [], ◌∷◌, ltb,
  if◌then◌else◌, length, All,
}
use io_tware.Sifw.Text.{Text}
use io_tware.Smfw.State.{
  Run, ok, undefined, ◌>>=◌, p_unknown, ConnectLine, TaskLink, null, TaskInfo, Service,
}
use io_tware.Smfw.Links.{
  make_task_links, find_last_task_link, link_at, set_link_at, link_lines, link_name,
}
use io_tware.Smfw.Links.Tree.{
  OwnAddress, make_task_links-tree, answers, FixedOn, find-tree, InTree, link_at-set,
}
use io_tware.Smfw.Parameters.{set_output_param}
use io_tware.Smfw.Connect.{
  onoff_test, off_list, set_connect_link, curr_task_state, connect_all, connect_link,
  set_output_connect_line,
}
use io_tware.Smfw.Connect.Output.{find-set, Found, find-Found}

-- Two tests agree on the tasks of a list.
abbrev pub Agree : (Option ℕ → Bool) → (Option ℕ → Bool) → List TaskInfo → Type 0
Agree test test' tasks = All (λ t. test (some t.address) ≡ test' (some t.address)) tasks

answers-Agree :
    (test test' : Option ℕ → Bool) (tasks : List TaskInfo)
    → Agree test test' tasks
    → answers test tasks ≡ answers test' tasks
unfolding answers
answers-Agree test test' [] h = refl
answers-Agree test test' (t ∷ []) h = ap (λ b. if t.offloading then b ∷ [] else []) h.0
answers-Agree test test' (t ∷ u ∷ tasks) h =
    ap₂ (λ b way. b ∷ way) h.0 (answers-Agree test test' (u ∷ tasks) h.1)

FixedOn-Agree :
    (test test' : Option ℕ → Bool) (tasks : List TaskInfo)
    → Agree test test' tasks
    → FixedOn test' tasks
    → FixedOn test tasks
unfolding FixedOn
FixedOn-Agree test test' [] h f = tt
FixedOn-Agree test test' (t ∷ []) h f = tt
FixedOn-Agree test test' (t ∷ u ∷ tasks) h f = (
  elim f.0 [ inl o ↦ inl o | inr e ↦ inr (h.0 ∙ e) ],
  FixedOn-Agree test test' (u ∷ tasks) h.1 f.1,
)

-- The way that both find in the links that make_task_links makes.
find-made :
    (test test' : Option ℕ → Bool) (t u : TaskInfo) (tasks : List TaskInfo)
    → OwnAddress (t ∷ u ∷ tasks)
    → Agree test test' (t ∷ u ∷ tasks)
    → FixedOn test' (t ∷ u ∷ tasks)
    → find_last_task_link (make_task_links null (t ∷ u ∷ tasks)) test
      ≡ some (answers test' (t ∷ u ∷ tasks))
find-made test test' t u tasks o h f =
    ap (λ l. find_last_task_link l test) (make_task_links-tree t u tasks o)
    ∙ find-tree test t (u ∷ tasks) (FixedOn-Agree test test' (t ∷ u ∷ tasks) h f)
    ∙ ap some (answers-Agree test test' (t ∷ u ∷ tasks) h)

Agree-refl : (test : Option ℕ → Bool) (tasks : List TaskInfo) → Agree test test tasks
Agree-refl test [] = tt
Agree-refl test (t ∷ tasks) = (refl, Agree-refl test tasks)

set_at :
    (s : Service) (w : Option (List Bool)) (way : List Bool)
    (clinks : Option (List (Option ConnectLine))) (oname : Text)
    → w ≡ some way
    → ltb (length oname) 30 ≡ true
    → elim w [
      | none ↦ ok s
      | some way' ↦
          if ltb (length oname) 30
          then ok (record s { task_link_head = set_link_at s.task_link_head way' clinks oname })
          else undefined
    ]
      ≡ ok (record s { task_link_head = set_link_at s.task_link_head way clinks oname })
set_at s w way clinks oname e l = rw (e, l)

-- What set_output_connect_line comes to at a link with lines and a name.
abbrev pub connected : Service → List Bool → List (Option ConnectLine) → Text → Run Service
connected s way lines oname = do
  tasks ← connect_all lines s.tasks
  ok (record (set_output_param (record s { current_task_link = some way }) p_unknown 0 oname) {
    tasks = tasks;
  })

by_lines :
    (s : Service) (way : List Bool) (clinks : Option (List (Option ConnectLine))) (oname : Text)
    (lines : List (Option ConnectLine))
    → clinks ≡ some lines
    → elim clinks [
      | none ↦ ok (set_output_param (record s { current_task_link = some way }) p_unknown 0 oname)
      | some lines' ↦ do
        tasks ← connect_all lines' s.tasks
        ok
            (record (set_output_param
              (record s { current_task_link = some way })
              p_unknown
              0
              oname) { tasks = tasks })
    ]
      ≡ connected s way lines oname
by_lines s way clinks oname lines e = rw e refl

connect_link-at :
    (s : Service) (way : List Bool) (lines : List (Option ConnectLine)) (oname : Text)
    → link_lines (link_at s.task_link_head way) ≡ some lines
    → link_name (link_at s.task_link_head way) ≡ oname
    → connect_link s way ≡ connected s way lines oname
unfolding connect_link
connect_link-at s way lines oname l n =
    by_lines s way (link_lines (link_at s.task_link_head way))
      (link_name (link_at s.task_link_head way)) lines l
    ∙ ap (connected s way lines) n

by_way :
    (s : Service) (w : Option (List Bool)) (way : List Bool)
    → w ≡ some way
    → elim w [ none ↦ ok s | some way' ↦ connect_link s way' ] ≡ connect_link s way
by_way s w way e = rw e refl

output_at :
    (s : Service) (way : List Bool) (lines : List (Option ConnectLine)) (oname : Text)
    → find_last_task_link s.task_link_head (curr_task_state s.tasks) ≡ some way
    → link_lines (link_at s.task_link_head way) ≡ some lines
    → link_name (link_at s.task_link_head way) ≡ oname
    → set_output_connect_line s ≡ connected s way lines oname
unfolding set_output_connect_line
output_at s way lines oname e l n =
    by_way s (find_last_task_link s.task_link_head (curr_task_state s.tasks)) way e
    ∙ connect_link-at s way lines oname l n

found-InTree :
    (l : TaskLink) (test : Option ℕ → Bool) (way : List Bool)
    → find_last_task_link l test ≡ some way
    → InTree l way
found-InTree l test way e = subst (Found l) e (find-Found l test)

-- In a service with two tasks or more, whose links make_task_links made, set_connect_link for a name
-- that fits and tasks to be off of which all can be switched, puts its lines at a link. Whatever
-- tasks are on later, when they are just the others, set_output_connect_line comes to that link: it
-- connects these lines and takes this name.
pub set_output_connect_line-set_connect_link :
    (s : Service) (t u : TaskInfo) (tasks now : List TaskInfo) (lines : List (Option ConnectLine))
    (oname : Text) (names : List Text)
    → s.task_link_head ≡ make_task_links null (t ∷ u ∷ tasks)
    → OwnAddress (t ∷ u ∷ tasks)
    → ltb (length oname) 30 ≡ true
    → FixedOn (onoff_test (off_list s names [])) (t ∷ u ∷ tasks)
    → Agree (curr_task_state now) (onoff_test (off_list s names [])) (t ∷ u ∷ tasks)
    → (s' : Service) × (set_connect_link s (some lines) oname names ≡ ok s')
      × (set_output_connect_line (record s' { tasks = now })
          ≡ connected
              (record s' { tasks = now })
              (answers (onoff_test (off_list s names [])) (t ∷ u ∷ tasks))
              lines
              oname)
unfolding set_connect_link
set_output_connect_line-set_connect_link s t u tasks now lines oname names e o l f a =
    let off = onoff_test (off_list s names []) in
    let ts = t ∷ u ∷ tasks in
    let way = answers off ts in
    let h =
      ap (λ k. find_last_task_link k off) e ∙ find-made off off t u tasks o (Agree-refl off ts) f in
    let s' : Service = record s {
      task_link_head = set_link_at s.task_link_head way (some lines) oname;
    } in
    let at =
      link_at-set s.task_link_head way (some lines) oname
        (found-InTree s.task_link_head off way h) in
    (
      s',
      set_at s (find_last_task_link s.task_link_head off) way (some lines) oname h l,
      output_at (record s' { tasks = now }) way lines oname
          (find-set s.task_link_head way (some lines) oname (curr_task_state now)
            ∙ ap (λ k. find_last_task_link k (curr_task_state now)) e
            ∙ find-made (curr_task_state now) off t u tasks o a f)
          at.0 at.1,
    )
