-- ===== src/Dcfw/TasksMsg.antt =====
-- The struct of the messages that name tasks (0x10, 0x13 and 0x14): header, `reserved`, `length`
-- and the pointer `tasks`, which stands in the packed struct with its four bytes.
use io_tware.Common.{
  ℕ, ◌+◌, ◌*◌, ◌/◌, ◌%◌, ◌^◌, ◌≤◌, ◌<◌, ◌≡◌, refl, [], ◌∷◌, Bytes, AreBytes, length, take, arith,
}
use io_tware.Dcfw.Layout.{
  Layout, CmFixedHeader, HeaderFits, header_byte, load_header, byte_2_6, byte_at,
}

pub record CmTasksMsg : Type 0 where
  pub header : CmFixedHeader
  pub reserved : ℕ
  pub length_field : ℕ
  pub tasks : ℕ

abbrev pub TasksFits : CmTasksMsg → Type 0
TasksFits m = HeaderFits m.header × (m.reserved < 4) × (m.length_field < 64) × (m.tasks < 2 ^ 32)

abbrev pub tasks_image : CmTasksMsg → Bytes
tasks_image m =
    header_byte m.header
    ∷ byte_2_6 m.reserved m.length_field
    ∷ (m.tasks % 256)
    ∷ (m.tasks / 256 % 256)
    ∷ (m.tasks / 65536 % 256)
    ∷ (m.tasks / 16777216 % 256)
    ∷ []

abbrev pub tasks_load : Bytes → CmTasksMsg
tasks_load bs = record {
  header = load_header (byte_at bs 0);
  reserved = byte_at bs 1 % 4;
  length_field = byte_at bs 1 / 4 % 64;
  tasks =
      byte_at bs 2 % 256
      + 256 * (byte_at bs 3 % 256)
      + 65536 * (byte_at bs 4 % 256)
      + 16777216 * (byte_at bs 5 % 256);
}

pub tasks_load-image : (m : CmTasksMsg) → TasksFits m → tasks_load (tasks_image m) ≡ m
tasks_load-image m f = ground arith

pub tasks_image-load :
    (bs : Bytes) → AreBytes bs → 6 ≤ length bs → tasks_image (tasks_load bs) ≡ take 6 bs
tasks_image-load [] h k = absurd (omega arith)
tasks_image-load (_ ∷ []) h k = absurd (omega arith)
tasks_image-load (_ ∷ _ ∷ []) h k = absurd (omega arith)
tasks_image-load (_ ∷ _ ∷ _ ∷ []) h k = absurd (omega arith)
tasks_image-load (_ ∷ _ ∷ _ ∷ _ ∷ []) h k = absurd (omega arith)
tasks_image-load (_ ∷ _ ∷ _ ∷ _ ∷ _ ∷ []) h k = absurd (omega arith)
tasks_image-load (b ∷ c ∷ d ∷ e ∷ f ∷ g ∷ bs) h k = ground arith

abbrev pub tasks_layout : Layout CmTasksMsg
tasks_layout = record {
  size = 6;
  Fits = TasksFits;
  image = tasks_image;
  load = tasks_load;
  length-image = λ m. refl;
  load-image = tasks_load-image;
  image-load = tasks_image-load;
}
