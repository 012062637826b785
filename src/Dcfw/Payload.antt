-- ===== src/Dcfw/Payload.antt =====
-- Messages of a fixed head and a payload behind a pointer, which has fixed fields and a list of
-- items behind a pointer: what iw_fw_msg_id_x03.c and x15.c to x18.c have in common.
pub mod Laws
use io_tware.Common.{
  ℕ, ◌+◌, ◌-◌, Bool, Option, none, some, List, [], Bytes, Calloc, zeros, read, write, Exec, ok,
  undefined, ◌>>=◌, leb, if◌then◌else◌,
}
use io_tware.Dcfw.Layout.{Layout}
use io_tware.Dcfw.Attributes.{size_t}
use io_tware.Dcfw.Items.{ItemCodec}
use io_tware.Dcfw.Fixed.{Serialized}

-- A payload struct: its fields before the pointer, and the array behind the pointer.
pub record Payload (P A : Type 0) : Type 0 where
  pub fields : P
  pub items : List A

-- A message struct: its fields before the pointer `payload`, and what that points to.
pub record PayloadMsg (H P A : Type 0) : Type 0 where
  pub head : H
  pub payload : Option (Payload P A)

module _ {H P A : Type 0} (head : Layout H) (fields : Layout P) (attr_count : P → ℕ)
    (codec : ItemCodec A) where
  -- The `*size` of a serialised message.
  unfoldable pub serialized_size : Payload P A → Exec ℕ
  serialized_size p = do
    items ← codec.serialize_size p.items (attr_count p.fields + 1)
    ok (size_t (head.size + fields.size + items))

  -- The `memcpy` calls into the zeroed buffer.
  unfoldable pub fill : H → Payload P A → ℕ → Exec Bytes
  fill h p size = do
    buf₁ ← write 0 (head.image h) (zeros size)
    buf₂ ← write head.size (fields.image p.fields) buf₁
    codec.serialize p.items (attr_count p.fields + 1) (head.size + fields.size) buf₂

  -- `no_memory` is what the routine does where `calloc` returns NULL.
  unfoldable pub serialize_payload :
      (ℕ → Exec Serialized) → Calloc → H → Payload P A → Exec Serialized
  serialize_payload no_memory calloc h p = do
    size ← serialized_size p
    let filled = do buf ← fill h p size; ok (record { size = size; buf = some buf })
    if calloc 0 size then filled else no_memory size

  -- `*size` is computed through `msg->payload`, before that is compared with NULL.
  unfoldable pub msg_serialize : (ℕ → Exec Serialized) → Calloc → PayloadMsg H P A → Exec Serialized
  msg_serialize no_memory calloc msg = elim msg.payload [
    | none ↦ undefined
    | some p ↦ serialize_payload no_memory calloc msg.head p
  ]

  -- `payload_parse`, from a sufficient size on; a payload takes its fields and a pointer of four
  -- bytes. `none` is NULL.
  unfoldable pub payload_parse_fields : Calloc → Bytes → ℕ → Exec (Option (Payload P A))
  payload_parse_fields calloc msg size =
      if calloc 0 (fields.size + 4)
      then (do
        (bytes, pt) ← read fields.size msg
        items ← codec.parse calloc 1 pt (size - fields.size) (attr_count (fields.load bytes))
        ok (some (record { fields = fields.load bytes; items = items })))
      else ok none

  unfoldable pub payload_parse : Calloc → Bytes → ℕ → Exec (Option (Payload P A))
  payload_parse calloc msg size =
      if leb fields.size size then payload_parse_fields calloc msg size else ok none

  -- The parser of a message, given that of its payload. `none` if the returned struct is left
  -- uninitialised.
  unfoldable pub msg_parse :
      (Calloc → Bytes → ℕ → Exec (Option (Payload P A)))
      → Calloc
      → Bytes
      → ℕ
      → Exec (Option (PayloadMsg H P A))
  msg_parse parse_payload calloc msg size =
      if leb head.size size
      then (do
        (bytes, pt) ← read head.size msg
        payload ← parse_payload calloc pt (size - head.size)
        ok (some (record { head = head.load bytes; payload = payload })))
      else ok none
