-- ===== src/Sifw/Object.antt =====
-- The objects of a lightweight message and the dictionary operations of iw_fw_lwMsgUtils.c.
-- `iw_add_list_node` puts a node in front, so a list stands here from its head on: the latest
-- addition first. Every `calloc` and `malloc` of this file and its children succeeds.
use io_tware.Common.{ℕ, zero, suc, ◌%◌, Option, none, some, if◌then◌else◌}
use io_tware.Sifw.Text.{Text, text_eq}

-- A signed integer of C; `negsuc n` is -(n + 1).
pub data ℤ : Type 0 where
  pos : ℕ → ℤ
  negsuc : ℕ → ℤ

-- `LWMNumber` by the type of its value. A float is what the code makes of it: `(int)x` and
-- `(int)(x * 100)`. `unset` has no value yet.
pub data LwmNumber : Type 0 where
  unset : LwmNumber
  int8 int16 int32 : ℤ → LwmNumber
  uint8 uint16 uint32 : ℕ → LwmNumber
  float double : ℤ → ℤ → LwmNumber

-- `LWMObject` by its `type`; a string's `value` may be NULL. `Items` is `LWMArray`, `Fields`
-- `LWMDictionary`.
mutual
  pub data LwmObject : Type 0 where
    number : LwmNumber → LwmObject
    string : Option Text → LwmObject
    array : Items → LwmObject
    dict : Fields → LwmObject

  pub data Items : Type 0 where
    no_items : Items
    item : LwmObject → Items → Items

  pub data Fields : Type 0 where
    no_fields : Fields
    field : Text → LwmObject → Fields → Fields

-- `nodeNum` of the two lists, an `unsigned char`.
abbrev pub items_length : Items → ℕ
items_length no_items = 0
items_length (item _ xs) = suc (items_length xs)

abbrev pub item_num : Items → ℕ
item_num xs = items_length xs % 256

abbrev pub fields_length : Fields → ℕ
fields_length no_fields = 0
fields_length (field _ _ fs) = suc (fields_length fs)

abbrev pub field_num : Fields → ℕ
field_num fs = fields_length fs % 256

abbrev pub drop_fields : ℕ → Fields → Fields
drop_fields zero fs = fs
drop_fields (suc n) no_fields = no_fields
drop_fields (suc n) (field _ _ fs) = drop_fields n fs

-- `_delete_lwm_kvo`: the loop removes the head until `nodeNum` is 0.
unfoldable pub delete_fields : Fields → Fields
delete_fields fs = drop_fields (field_num fs) fs

-- `get_lwm_object_from_dict`: the first value under the key.
unfoldable pub get_object : Fields → Text → Option LwmObject
get_object no_fields key = none
get_object (field k v fs) key = if text_eq k key then some v else get_object fs key

-- `_delete_lwm_kvo_by_key`: the first node of the key goes.
unfoldable pub delete_by_key : Fields → Text → Fields
delete_by_key no_fields key = no_fields
delete_by_key (field k v fs) key = if text_eq k key then fs else field k v (delete_by_key fs key)

-- `set_lwm_object_to_dict`
unfoldable pub set_object : Fields → Text → LwmObject → Fields
unfolding delete_by_key
set_object fs key v = field key v (delete_by_key fs key)

-- `add_lwm_object_to_array`, with NULL for `none`.
unfoldable pub add_item : Items → Option LwmObject → Items
add_item xs none = xs
add_item xs (some v) = item v xs

-- `LWMessage`
pub record LwMessage : Type 0 where
  pub header : Fields
  pub body : Fields
