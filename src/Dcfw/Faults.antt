-- ===== src/Dcfw/Faults.antt =====
-- Where the message files of DCFW differ on bad input, and where their accesses leave the buffer.
use io_tware.Common.{
  ℕ, ◌-◌, ◌≤◌, ◌<◌, ◌≡◌, refl, Option, none, some, true, false, ◌++◌, Bytes, Calloc, length,
  read-append, ok, undefined, le→leb, lt→leb_false, arith,
}
use io_tware.Dcfw.Fixed.{Serialized, struct_serialize, struct_parse}
use io_tware.Dcfw.Fixed.Laws.{struct_parse-serialize}
use io_tware.Dcfw.TasksMsg.{CmTasksMsg, TasksFits, tasks_layout}
use io_tware.Dcfw.Heads.{
  DataHead, DataFits, TaskFields, TaskFits, data_head, data_image, task_fields, task_image,
  data_load-image,
}
use io_tware.Dcfw.Items.{plain_codec, values_codec}
use io_tware.Dcfw.Payload.Laws.{msg_serialize-no_memory, msg_parse-short}
use io_tware.Dcfw.MsgX03
use io_tware.Dcfw.MsgX10
use io_tware.Dcfw.MsgX13
use io_tware.Dcfw.MsgX14
use io_tware.Dcfw.MsgX15
use io_tware.Dcfw.MsgX16
use io_tware.Dcfw.MsgX17

-- Where `calloc` has no memory for the buffer, serialising a member-info message returns NULL and
-- the size, and serialising an attribute-read message of the same content writes through NULL.
pub serialize-no_memory :
    (h : DataHead) (p : MsgX03.CmMemberInfoPayload) (calloc : Calloc)
    → MsgX03.Fits h p
    → calloc 0 (length (MsgX03.image h p)) ≡ false
    → (MsgX03.serialize calloc (record { head = h; payload = some p })
        ≡ ok (record { size = length (MsgX03.image h p); buf = none }))
      × (MsgX16.serialize calloc (record { head = h; payload = some p }) ≡ undefined)
unfolding MsgX03.serialize MsgX16.serialize
serialize-no_memory h p calloc fits e = (
  msg_serialize-no_memory data_head task_fields (λ f. f.attr_count) plain_codec (omega arith) h p
      fits (λ _ _. true) (λ _ _. refl) (λ size. ok (record { size = size; buf = none })) calloc e,
  msg_serialize-no_memory data_head task_fields (λ f. f.attr_count) plain_codec (omega arith) h p
      fits (λ _ _. true) (λ _ _. refl) (λ _. undefined) calloc e,
)

-- The parsers test only that one byte of the items is there: with some item bytes, but fewer than
-- items are announced, the parsers of member info and of task input data read past the message.
pub parse-cut_short :
    (h : DataHead) (f : TaskFields) (bs : Bytes) (calloc : Calloc)
    → ((i n : ℕ) → calloc i n ≡ true)
    → DataFits h
    → TaskFits f
    → 1 ≤ length bs
    → length bs ≤ f.attr_count
    → let msg = data_image h ++ (task_image f ++ bs) in
      (MsgX03.parse calloc msg (length msg) ≡ undefined)
      × (MsgX17.parse calloc msg (length msg) ≡ undefined)
unfolding MsgX03.parse MsgX17.parse
parse-cut_short h f bs calloc heap hf ff nonempty few = (
  msg_parse-short data_head task_fields (λ r. r.attr_count) plain_codec h f bs calloc heap hf ff
      ff.2 nonempty few,
  msg_parse-short data_head task_fields (λ r. r.attr_count) values_codec h f bs calloc heap hf ff
      ff.2 nonempty few,
)

-- On a head with fewer than the two bytes of a payload's fields behind it, the parser of task input
-- data returns the head with a null payload, and that of attribute write uses a value that was
-- never returned.
pub parse-no_payload :
    (h : DataHead) (bs : Bytes) (calloc : Calloc)
    → DataFits h
    → length bs < 2
    → let msg = data_image h ++ bs in
      (MsgX17.parse calloc msg (length msg) ≡ ok (some (record { head = h; payload = none })))
      × (MsgX15.parse calloc msg (length msg) ≡ undefined)
unfolding MsgX17.parse MsgX15.parse
parse-no_payload h bs calloc hf few =
    let msg = data_image h ++ bs in
    let left : length msg - 2 ≡ length bs = omega arith in
    (
      rw (
        le→leb 2 (length msg) (omega arith),
        read-append 2 (data_image h) bs refl,
        left,
        lt→leb_false 2 (length bs) few,
        data_load-image h hf,
      ),
      rw (
        le→leb 2 (length msg) (omega arith),
        read-append 2 (data_image h) bs refl,
        left,
        lt→leb_false 2 (length bs) few,
      ),
    )

-- What is serialised has six bytes, and is parsed to the same message.
abbrev pub Travels :
    (Calloc → CmTasksMsg → Serialized)
    → (Bytes → ℕ → Option CmTasksMsg)
    → Calloc
    → CmTasksMsg
    → Type 0
Travels serialize parse calloc msg =
    (bs : Bytes) × ((serialize calloc msg).buf ≡ some bs)
    × (length bs ≡ 6)
    × (parse bs (length bs) ≡ some msg)

struct-Travels :
    (msg : CmTasksMsg) (calloc : Calloc)
    → TasksFits msg
    → calloc 0 6 ≡ true
    → Travels (struct_serialize tasks_layout) (struct_parse tasks_layout) calloc msg
unfolding struct_serialize
struct-Travels msg calloc fits heap =
    let bs = tasks_layout.image msg in
    let e : (struct_serialize tasks_layout calloc msg).buf ≡ some bs = rw heap refl in
    let (size, same) = struct_parse-serialize tasks_layout calloc msg bs fits e in
    (bs, e, size, same)

-- Where there is memory, each of the three messages that name tasks is serialised as its packed
-- struct of six bytes and parsed from it, so that what arrives for `tasks` is the sender's pointer
-- and not what it points to.
pub tasks-travel_as_pointer :
    (msg : CmTasksMsg) (calloc : Calloc)
    → TasksFits msg
    → calloc 0 6 ≡ true
    → Travels MsgX10.serialize MsgX10.parse calloc msg
      × Travels MsgX13.serialize MsgX13.parse calloc msg
      × Travels MsgX14.serialize MsgX14.parse calloc msg
unfolding MsgX10.serialize MsgX10.parse MsgX13.serialize MsgX13.parse MsgX14.serialize MsgX14.parse
tasks-travel_as_pointer msg calloc fits heap =
    let travels = struct-Travels msg calloc fits heap in (travels, travels, travels)
