-- ===== src/Dcfw/TaskData.antt =====
-- The messages of DCFW with the inputs and the outputs of a task, iw_fw_msg_id_x17.c and
-- iw_fw_msg_id_x18.c.
use io_tware.Common.{ℕ, ◌≡◌, true, some, Calloc, length, ok}
use io_tware.Dcfw.Heads.{DataHead}
use io_tware.Dcfw.MsgX17
use io_tware.Dcfw.MsgX18

-- Task input data and task output data whose numbers fit and whose item count is right survive the
-- trip: their buffers have the reported size and hold head, fields and items from end to end, with
-- no access out of bounds, and those bytes are parsed to the message. Every `calloc` succeeds.
pub task_data_roundtrip :
    (h : DataHead) (p : MsgX17.CmTaskInputDataPayload) (h' : DataHead)
    (p' : MsgX18.CmTaskOutputDataPayload) (calloc : Calloc)
    → ((i n : ℕ) → calloc i n ≡ true)
    → MsgX17.Fits h p
    → MsgX18.Fits h' p'
    → ((MsgX17.serialize calloc (record { head = h; payload = some p })
          ≡ ok (record { size = length (MsgX17.image h p); buf = some (MsgX17.image h p) }))
        × (MsgX17.parse calloc (MsgX17.image h p) (length (MsgX17.image h p))
            ≡ ok (some (record { head = h; payload = some p }))))
      × ((MsgX18.serialize calloc (record { head = h'; payload = some p' })
            ≡ ok (record { size = length (MsgX18.image h' p'); buf = some (MsgX18.image h' p') }))
          × (MsgX18.parse calloc (MsgX18.image h' p') (length (MsgX18.image h' p'))
              ≡ ok (some (record { head = h'; payload = some p' }))))
task_data_roundtrip h p h' p' calloc heap fits fits' = (
  MsgX17.task_input_data_roundtrip h p calloc heap fits,
  MsgX18.task_output_data_roundtrip h' p' calloc heap fits',
)
