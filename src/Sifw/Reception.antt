-- ===== src/Sifw/Reception.antt =====
-- A round of iw_fw_lwMsgRx of IotwareFW/Microservice/SIFW/iw_fw_lwMsgCore.c: a text from the server
-- is parsed, and the message goes to one of two queues.
pub mod Sent
use io_tware.Common.{
  ℕ, length, ltb, Bool, true, false, Option, none, some, List, ◌∷◌, if◌then◌else◌,
}
use io_tware.Sifw.Text.{Text}
use io_tware.Sifw.Key
use io_tware.Sifw.Object.{LwmObject, get_object, LwMessage}
use io_tware.Sifw.Parse.{Run, ok, undefined, ◌>>=◌, parse_message}

-- The messages given to `rXrespMsg` and to the queue of the dispatcher, the latest first.
pub record Reception : Type 0 where
  pub responses : List LwMessage
  pub requests : List LwMessage

abbrev pub is_response : Option LwmObject → Option LwmObject → Bool
is_response (some dri) (some rsc) = true
is_response _ _ = false

-- What is done with a message, by `get_device_is_registered()` and by whether the dispatcher's queue
-- takes it: a message that is not taken is deleted.
unfoldable pub route : Bool → Bool → LwMessage → Reception → Reception
route registered taken msg r =
    if is_response (get_object msg.header Key.dri) (get_object msg.header Key.rsc)
    then record r { responses = msg ∷ r.responses }
    else if registered
    then (if taken then record r { requests = msg ∷ r.requests } else r)
    else r

-- `sizeof(pcReceivedString)`, which is the size of an item of `xNetworkRx` as well.
abbrev pub receive_size : ℕ
receive_size = 128

-- The round for a text that was received; one that does not parse is dropped. The buffer holds 128
-- characters of the text: where its NUL is not among them, the parser reads behind the buffer.
unfoldable pub receive : Bool → Bool → Text → Reception → Run Reception
unfolding route parse_message
receive registered taken text r = do
  arrived ← if ltb (length text) receive_size then ok text else undefined
  parsed ← parse_message arrived
  ok (elim parsed [ none ↦ r | some msg ↦ route registered taken msg r ])
