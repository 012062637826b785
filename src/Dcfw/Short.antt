-- ===== src/Dcfw/Short.antt =====
-- The messages of DCFW that are one packed struct: connect, set-device-mode, and the acknowledgement
-- of check-status.
use io_tware.Common.{◌≡◌, true, some, Bytes, AreBytes, Calloc, length, take}
use io_tware.Dcfw.MsgX02
use io_tware.Dcfw.MsgX04
use io_tware.Dcfw.MsgX05

-- A connect message, a mode message and a status acknowledgement survive the trip: what their
-- serialisers return has the reported size and is parsed to the message. Bytes that parse as a
-- connect message are what serialising that message gives: the first four, where calloc succeeds.
pub short_messages-travel :
    (calloc : Calloc) (c c' : MsgX02.CmConnectMsg) (m : MsgX04.CmSetDeviceModeMsg)
    (a : MsgX05.CmCheckStatusAckMsg) (cs ms acks arrived : Bytes)
    → MsgX02.ConnectFits c
    → MsgX04.DeviceModeFits m
    → MsgX05.StatusFits a
    → (MsgX02.serialize calloc c).buf ≡ some cs
    → (MsgX04.serialize calloc m).buf ≡ some ms
    → (MsgX05.ack_serialize calloc a).buf ≡ some acks
    → AreBytes arrived
    → MsgX02.parse arrived (length arrived) ≡ some c'
    → calloc 0 4 ≡ true
    → ((length cs ≡ (MsgX02.serialize calloc c).size) × (MsgX02.parse cs (length cs) ≡ some c))
      × ((length ms ≡ (MsgX04.serialize calloc m).size) × (MsgX04.parse ms (length ms) ≡ some m))
      × ((length acks ≡ (MsgX05.ack_serialize calloc a).size)
          × (MsgX05.ack_parse acks (length acks) ≡ some a))
      × ((MsgX02.serialize calloc c').buf ≡ some (take 4 arrived))
short_messages-travel calloc c c' m a cs ms acks arrived fc fm fa ec em ea bytes parsed memory = (
  MsgX02.connect_parse-serialize calloc c cs fc ec,
  MsgX04.mode_parse-serialize calloc m ms fm em,
  MsgX05.ack_parse-ack_serialize calloc a acks fa ea,
  MsgX02.connect_serialize-parse arrived calloc c' bytes parsed memory,
)
