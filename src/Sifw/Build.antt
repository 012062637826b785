-- ===== src/Sifw/Build.antt =====
-- The constructors and accessors of iw_fw_lwMsgUtils.c and the macros of iw_fw_lwMsgUtils.h.
use io_tware.Common.{
  ℕ, zero, suc, ◌+◌, Bool, true, false, Option, none, some, ltb, if◌then◌else◌, length,
}
use io_tware.Sifw.Text.{Text}
use io_tware.Sifw.Object.{
  ℤ, unset, int32, uint32, float, LwmObject, number, string, array, dict, no_items, Fields,
  no_fields, get_object, set_object, LwMessage,
}
use io_tware.Sifw.Serialize.{decimal}
use io_tware.Sifw.Parse.{empty_message}
use io_tware.Sifw.Key

-- The types of an object that `LWMSG_DATA_TYPE` names.
pub data DataType : Type 0 where
  number_type string_type array_type dictionary_type : DataType

-- `new_lwm_empty_object` of these types.
unfoldable pub new_lwm_empty_object : DataType → LwmObject
new_lwm_empty_object number_type = number unset
new_lwm_empty_object string_type = string none
new_lwm_empty_object array_type = array no_items
new_lwm_empty_object dictionary_type = dict no_fields

-- `new_lwm_string_object`
unfoldable pub new_lwm_string_object : Option Text → LwmObject
unfolding new_lwm_empty_object
new_lwm_string_object none = new_lwm_empty_object string_type
new_lwm_string_object (some s) = string (some s)

-- `set_lwm_string`
unfoldable pub set_lwm_string : LwmObject → Option Text → LwmObject
set_lwm_string (string old) (some s) = string (some s)
set_lwm_string obj _ = obj

-- `set_lwm_int`
unfoldable pub set_lwm_int : LwmObject → ℤ → LwmObject
set_lwm_int (number old) n = number (int32 n)
set_lwm_int obj n = obj

-- `set_lwm_float` of a float's two parts.
unfoldable pub set_lwm_float : LwmObject → ℤ → ℤ → LwmObject
set_lwm_float (number old) whole hundredths = number (float whole hundredths)
set_lwm_float obj whole hundredths = obj

abbrev set_text : Fields → Text → Option Text → Fields
set_text fs key none = fs
set_text fs key (some s) = set_object fs key (new_lwm_string_object (some s))

-- `new_lwm_req_message` of an interface, a dri and a di.
unfoldable pub new_lwm_req_message : ℕ → Option Text → Option Text → LwMessage
unfolding new_lwm_string_object
new_lwm_req_message id dri di =
    let header = set_object no_fields Key.if_id (number (uint32 id)) in
    record empty_message { header = set_text (set_text header Key.dri dri) Key.di di }

abbrev set_code : Fields → ℕ → Fields
set_code fs zero = fs
set_code fs (suc n) = set_object fs Key.rsc (number (uint32 (suc n)))

-- `new_lwm_resp_message` of a dri and a code.
unfoldable pub new_lwm_resp_message : Option Text → ℕ → LwMessage
unfolding new_lwm_string_object
new_lwm_resp_message dri rsc = record empty_message {
  header = set_code (set_text no_fields Key.dri dri) rsc;
}

abbrev id_of : Option LwmObject → ℕ
id_of (some (number (uint32 n))) = n
id_of _ = 0

-- `get_lwm_interface_id`
unfoldable pub get_lwm_interface_id : LwMessage → ℕ
get_lwm_interface_id msg = id_of (get_object msg.header Key.if_id)

-- `GET_LWM_STRING_VALUE`, with `none` for NULL.
unfoldable pub string_value : Option LwmObject → Option Text
string_value (some (string s)) = s
string_value _ = none

-- `get_lwm_dri`
unfoldable pub get_lwm_dri : LwMessage → Option Text
unfolding string_value
get_lwm_dri msg = string_value (get_object msg.header Key.dri)

-- `set_lwm_di`: the result, and the device's id.
unfoldable pub set_lwm_di : Text → Text → Bool × Text
set_lwm_di old di = if ltb 14 (length di) then (false, old) else (true, di)

-- `get_lwm_tx_dri`: the text of the counter, and the next one.
unfoldable pub get_lwm_tx_dri : ℕ → Text × ℕ
unfolding decimal
get_lwm_tx_dri counter = (decimal counter, if ltb 99999900 (counter + 1) then 1 else counter + 1)
