-- ===== src/Dcfw/Fixed.antt =====
-- Messages that are one packed struct: the routines of iw_fw_collabomsg_internal.c for the header
-- and the default acknowledgement, whose text the other fixed-size messages repeat.
pub mod Laws
use mathlib.Core.Option
use io_tware.Common.{ℕ, Option, none, some, Bytes, Calloc, leb, if◌then◌else◌}
use io_tware.Dcfw.Layout.{Layout, CmFixedHeader, CmDefaultAckMsg, header_layout, default_ack_layout}

-- `*size` and the returned buffer, `none` for NULL.
pub record Serialized : Type 0 where
  pub size : ℕ
  pub buf : Option Bytes

module _ {A : Type 0} (l : Layout A) where
  -- `*size = sizeof(A); buf = calloc(1, *size); if (buf != NULL) memcpy(buf, msg, *size);`
  unfoldable pub struct_serialize : Calloc → A → Serialized
  struct_serialize calloc msg = record {
    size = l.size;
    buf = if calloc 0 l.size then some (l.image msg) else none;
  }

  -- `if (sizeof(A) <= size) memcpy(&buf, msg, sizeof(A)); return buf;`: `none` if the returned
  -- struct is left uninitialised. `size` is the length of `msg`.
  unfoldable pub struct_parse : Bytes → ℕ → Option A
  struct_parse msg size = if leb l.size size then some (l.load msg) else none

unfoldable pub cm_header_serialize : Calloc → CmFixedHeader → Serialized
unfolding struct_serialize
cm_header_serialize = struct_serialize header_layout

unfoldable pub cm_header_parse : Bytes → ℕ → Option CmFixedHeader
unfolding struct_parse
cm_header_parse = struct_parse header_layout

unfoldable pub cm_default_ack_serialize : Calloc → CmDefaultAckMsg → Serialized
unfolding struct_serialize
cm_default_ack_serialize = struct_serialize default_ack_layout

unfoldable pub cm_default_ack_parse : Bytes → ℕ → Option CmDefaultAckMsg
unfolding struct_parse
cm_default_ack_parse = struct_parse default_ack_layout

-- The structs whose only member is `header`, such as `struct CMConnectAckMsg`.
pub record HeaderMsg (H : Type 0) : Type 0 where
  pub header : H

-- `buf.header = parse(msg, size); return buf;`
unfoldable pub header_msg_parse :
    {H : Type 0} → (Bytes → ℕ → Option H) → Bytes → ℕ → Option (HeaderMsg H)
header_msg_parse parse msg size = Option.map (λ h. record { header = h }) (parse msg size)
