-- ===== src/Smfw/Links.antt =====
-- The task links of iw_fw_microservices.c: a tree with a way for each task being on or off.
pub mod Tree
use io_tware.Common.{
  ℕ, Bool, true, false, not, Option, none, some, List, [], ◌∷◌, ◌++◌, ◌==◌, if◌then◌else◌,
}
use io_tware.Sifw.Text.{Text}
use io_tware.Smfw.State.{TaskInfo, ConnectLine, TaskLink, null, link}

-- A fresh link, from `_safe_alloc`.
abbrev pub new_link : Option ℕ → TaskLink
new_link task = link task null null none []

abbrev pub same_task : Option ℕ → ℕ → Bool
same_task none idx = false
same_task (some t) idx = t == idx

-- The writes of `_add_task_link` to the links that `_find_task_links` found: those of the task
-- `start`. A child that is replaced is lost with all below it.
unfoldable pub extend_links : TaskLink → ℕ → Bool → Option ℕ → TaskLink
extend_links null start offloading dest = null
extend_links (link task on off clinks oname) start offloading dest =
    let on' = extend_links on start offloading dest in
    let off' = extend_links off start offloading dest in
    if same_task task start
    then link task (new_link dest) (if offloading then new_link dest else off') clinks oname
    else link task on' off' clinks oname

abbrev pub or_first : TaskLink → ℕ → TaskLink
or_first null start = new_link (some start)
or_first (link task on off clinks oname) start = link task on off clinks oname

-- `_add_task_link`
unfoldable pub add_task_link : TaskLink → TaskInfo → Option ℕ → TaskLink
unfolding extend_links
add_task_link head start dest =
    extend_links (or_first head start.address) start.address start.offloading dest

-- The loop of `make_task_links`; the result is the head and `right`. `left` of `none` is NULL.
unfoldable pub make_links_loop :
    TaskLink → Option TaskInfo → Option TaskInfo → List TaskInfo → TaskLink × Option TaskInfo
unfolding add_task_link
make_links_loop head left right [] = (head, right)
make_links_loop head none right (ti ∷ tasks) = make_links_loop head (some ti) right tasks
make_links_loop head (some left) none (ti ∷ tasks) =
    make_links_loop (add_task_link head left (some ti.address)) (some left) (some ti) tasks
make_links_loop head (some left) (some right) (ti ∷ tasks) =
    make_links_loop (add_task_link head right (some ti.address)) (some right) (some ti) tasks

abbrev pub last_link : TaskLink × Option TaskInfo → TaskLink
last_link (head, none) = head
last_link (head, some right) = if right.offloading then add_task_link head right none else head

-- `make_task_links`
unfoldable pub make_task_links : TaskLink → List TaskInfo → TaskLink
unfolding make_links_loop add_task_link
make_task_links head tasks = last_link (make_links_loop head none none tasks)

-- Whether both ways on are NULL.
abbrev pub is_last : TaskLink → TaskLink → Bool
is_last null null = true
is_last _ _ = false

abbrev pub behind : Bool → Option (List Bool) → Option (List Bool)
behind b none = none
behind b (some way) = some (b ∷ way)

-- `_find_last_task_link`: the way to the link that is found, `none` for NULL. A link with a way on
-- has a task.
unfoldable pub find_last_task_link : TaskLink → (Option ℕ → Bool) → Option (List Bool)
find_last_task_link null test = none
find_last_task_link (link task on off clinks oname) test =
    let by_on = find_last_task_link on test in
    let by_off = find_last_task_link off test in
    if is_last on off
    then some []
    else (if test task then behind true by_on else behind false by_off)

-- The link at the end of a way.
unfoldable pub link_at : TaskLink → List Bool → TaskLink
link_at l [] = l
link_at null (b ∷ way) = null
link_at (link task on off clinks oname) (b ∷ way) =
    let by_on = link_at on way in let by_off = link_at off way in if b then by_on else by_off

-- The writes of `set_connect_link` through that pointer.
unfoldable pub set_link_at :
    TaskLink → List Bool → Option (List (Option ConnectLine)) → Text → TaskLink
set_link_at null way clinks oname = null
set_link_at (link task on off old old_name) [] clinks oname = link task on off clinks oname
set_link_at (link task on off old old_name) (b ∷ way) clinks oname =
    let on' = set_link_at on way clinks oname in
    let off' = set_link_at off way clinks oname in
    if b then link task on' off old old_name else link task on off' old old_name

abbrev pub link_lines : TaskLink → Option (List (Option ConnectLine))
link_lines null = none
link_lines (link task on off clinks oname) = clinks

abbrev pub link_name : TaskLink → Text
link_name null = []
link_name (link task on off clinks oname) = oname
