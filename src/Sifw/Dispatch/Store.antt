-- ===== src/Sifw/Dispatch/Store.antt =====
-- What the handlers of task_lwmsg_dist.c share: the device, and what they read of a message.
use io_tware.Common.{ℕ, Option, none, some, List, ◌==◌, if◌then◌else◌}
use io_tware.Sifw.Text.{Text}
use io_tware.Sifw.Object.{
  ℤ, pos, negsuc, LwmObject, array, Items, no_items, item, item_num, get_object, LwMessage,
}
use io_tware.Sifw.Build.{string_value}
use io_tware.Smfw.State.{Run, ok, undefined, ◌>>=◌, TaskInfo, Service}
use io_tware.Smfw.Values.{atol}
use io_tware.Smfw.Tasks.{get_task_info_by_idx}

-- The services, the messages for which `response_lwmsg` was called and those for the queues of
-- tasks, the latest first. Nobody looks at the result of either call.
pub record Device : Type 0 where
  pub services : List Service
  pub sent : List LwMessage
  pub inputs : List (Option ℕ × LwMessage)

abbrev pub items_of : Option LwmObject → Option Items
items_of (some (array xs)) = some xs
items_of _ = none

-- The array under a key of the body.
unfoldable pub body_array : LwMessage → Text → Option Items
body_array msg key = items_of (get_object msg.body key)

-- An array whose 8-bit count is 1: one object, or 257 and so on.
abbrev pub single : Option Items → Option Items
single none = none
single (some xs) = if item_num xs == 1 then some xs else none

-- How a round of a loop over such an array ends, with the code so far and the device: the handler
-- returns, or goes on.
pub data Round : Type 0 where
  returns goes_on : ℕ → Device → Round

abbrev pub result_of : Round → ℕ × Device
result_of (returns rsc device) = (rsc, device)
result_of (goes_on rsc device) = (rsc, device)

-- That loop, to the end of the array or the first return.
unfoldable pub each : (LwmObject → ℕ → Device → Run Round) → Items → ℕ → Device → Run Round
each body no_items rsc device = ok (goes_on rsc device)
each body (item v xs) rsc device = do
  r ← body v rsc device
  elim r [
    | returns rsc' device' ↦ ok (returns rsc' device')
    | goes_on rsc' device' ↦ each body xs rsc' device'
  ]

-- A handler that is this loop, where the array is there and its count is 1; the code is 400 else.
unfoldable pub over_single :
    Option Items → (LwmObject → ℕ → Device → Run Round) → Device → Run (ℕ × Device)
unfolding each
over_single ids body device = elim (single ids) [
  | none ↦ ok (400, device)
  | some xs ↦ do r ← each body xs 400 device; ok (result_of r)
]

-- `atoi(GET_LWM_STRING_VALUE(obj))`
unfoldable pub int_value : LwmObject → Run ℤ
unfolding atol string_value
int_value obj = elim (string_value (some obj)) [ none ↦ undefined | some s ↦ atol s ]

-- `get_task_info_by_idx` of an `int`; a negative one is a large `size_t`.
unfoldable pub task_by_int : Service → ℤ → Option TaskInfo
unfolding get_task_info_by_idx
task_by_int pmsi (pos n) = get_task_info_by_idx pmsi n
task_by_int pmsi (negsuc n) = none
