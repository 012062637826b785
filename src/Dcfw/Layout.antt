-- ===== src/Dcfw/Layout.antt =====
-- Packed structs of DCFW (`#pragma pack(push, 1)`) and their bytes in memory. The bit-fields of a
-- byte are laid out from its lowest bit on, as the little-endian ARM ABI has it; a pointer takes
-- four bytes. A bit-field of w bits holds a number below 2 ^ w, which is what `Fits` says.
use io_tware.Common.{
  ℕ, ◌+◌, ◌*◌, ◌/◌, ◌%◌, ◌≤◌, ◌<◌, ◌≡◌, refl, ap, ap₂, [], ◌∷◌, Bytes, AreBytes, length, get_or,
  take, arith,
}

-- What `sizeof`, `memcpy(dst, &a, sizeof a)` and `memcpy(&a, src, sizeof a)` do for a struct `A`.
pub record Layout (A : Type 0) : Type 1 where
  pub size : ℕ
  pub Fits : A → Type 0
  pub image : A → Bytes
  pub load : Bytes → A
  pub length-image : (a : A) → length (image a) ≡ size
  pub load-image : (a : A) → Fits a → load (image a) ≡ a
  pub image-load : (bs : Bytes) → AreBytes bs → size ≤ length bs → image (load bs) ≡ take size bs

abbrev pub byte_at : Bytes → ℕ → ℕ
byte_at bs i = get_or bs i 0

-- `struct CMFixedHeader`
pub record CmFixedHeader : Type 0 where
  pub ack : ℕ
  pub message_id : ℕ
  pub dup : ℕ
  pub qos : ℕ

abbrev pub HeaderFits : CmFixedHeader → Type 0
HeaderFits h = (h.ack < 2) × (h.message_id < 32) × (h.dup < 2) × (h.qos < 2)

abbrev pub header_byte : CmFixedHeader → ℕ
header_byte h = h.ack % 2 + 2 * (h.message_id % 32) + 64 * (h.dup % 2) + 128 * (h.qos % 2)

abbrev pub load_header : ℕ → CmFixedHeader
load_header b = record { ack = b % 2; message_id = b / 2 % 32; dup = b / 64 % 2; qos = b / 128 % 2 }

pub load_header-byte : (h : CmFixedHeader) → HeaderFits h → load_header (header_byte h) ≡ h
load_header-byte h f = ground arith

pub header_byte-load : (b : ℕ) → b < 256 → header_byte (load_header b) ≡ b
header_byte-load b h = omega arith

pub header_image-load :
    (bs : Bytes)
    → AreBytes bs
    → 1 ≤ length bs
    → header_byte (load_header (byte_at bs 0)) ∷ [] ≡ take 1 bs
header_image-load [] h k = absurd (omega arith)
header_image-load (b ∷ bs) h k = ap (λ x. x ∷ []) (header_byte-load b h.0)

abbrev pub header_layout : Layout CmFixedHeader
header_layout = record {
  size = 1;
  Fits = HeaderFits;
  image = λ h. header_byte h ∷ [];
  load = λ bs. load_header (byte_at bs 0);
  length-image = λ h. refl;
  load-image = load_header-byte;
  image-load = header_image-load;
}

-- Two bit-fields in a byte, of 2 and 6 bits and of 6 and 2 bits.
abbrev pub byte_2_6 : ℕ → ℕ → ℕ
byte_2_6 a b = a % 4 + 4 * (b % 64)

abbrev pub byte_6_2 : ℕ → ℕ → ℕ
byte_6_2 a b = a % 64 + 64 * (b % 4)

-- `struct CMDefaultAckMsg`: the header's fields, then those of a second byte.
pub record CmDefaultAckMsg : Type 0 where
  pub ack : ℕ
  pub message_id : ℕ
  pub dup : ℕ
  pub qos : ℕ
  pub reserved : ℕ
  pub return_code : ℕ

abbrev pub ack_byte : CmDefaultAckMsg → ℕ
ack_byte m = m.ack % 2 + 2 * (m.message_id % 32) + 64 * (m.dup % 2) + 128 * (m.qos % 2)

abbrev pub AckFits : CmDefaultAckMsg → Type 0
AckFits m =
    (m.ack < 2)
    × (m.message_id < 32)
    × (m.dup < 2)
    × (m.qos < 2)
    × (m.reserved < 4)
    × (m.return_code < 64)

abbrev pub load_ack : ℕ → ℕ → CmDefaultAckMsg
load_ack b c = record {
  ack = b % 2;
  message_id = b / 2 % 32;
  dup = b / 64 % 2;
  qos = b / 128 % 2;
  reserved = c % 4;
  return_code = c / 4 % 64;
}

pub load_ack-bytes :
    (m : CmDefaultAckMsg)
    → AckFits m
    → load_ack (ack_byte m) (byte_2_6 m.reserved m.return_code) ≡ m
load_ack-bytes m f = ground arith

pub byte_2_6-load : (c : ℕ) → c < 256 → byte_2_6 (c % 4) (c / 4 % 64) ≡ c
byte_2_6-load c h = omega arith

pub byte_6_2-load : (c : ℕ) → c < 256 → byte_6_2 (c % 64) (c / 64 % 4) ≡ c
byte_6_2-load c h = omega arith

pub ack_image-load :
    (bs : Bytes)
    → AreBytes bs
    → 2 ≤ length bs
    → let m = load_ack (byte_at bs 0) (byte_at bs 1) in
      ack_byte m ∷ byte_2_6 m.reserved m.return_code ∷ [] ≡ take 2 bs
ack_image-load [] h k = absurd (omega arith)
ack_image-load (b ∷ []) h k = absurd (omega arith)
ack_image-load (b ∷ c ∷ bs) h k =
    ap₂ (λ x y. x ∷ y ∷ []) (header_byte-load b h.0) (byte_2_6-load c h.1.0)

abbrev pub default_ack_layout : Layout CmDefaultAckMsg
default_ack_layout = record {
  size = 2;
  Fits = AckFits;
  image = λ m. ack_byte m ∷ byte_2_6 m.reserved m.return_code ∷ [];
  load = λ bs. load_ack (byte_at bs 0) (byte_at bs 1);
  length-image = λ m. refl;
  load-image = load_ack-bytes;
  image-load = ack_image-load;
}
