-- ===== src/Dcfw/Tests.antt =====
-- Runs of the DCFW codecs, and their theorems at concrete messages.
use io_tware.Common.{
  ◌<◌, ◌≡◌, refl, none, some, true, false, List, [], ◌∷◌, Calloc, ok, undefined, write, arith,
}
use io_tware.Dcfw.Attributes.{
  CmAttributePayload, CmAttributeValuePayload, real_attr_count, packed_attr_count,
  real_value_length, packed_value_length, attributes_serialize_size, attributes_serialize,
}
use io_tware.Dcfw.Attributes.Counts.{packing-inverts}
use io_tware.Dcfw.Payload.{serialize_payload, serialized_size, fill}
use io_tware.Dcfw.Heads.{DataHead, TaskFields, AckHead}
use io_tware.Dcfw.TasksMsg.{CmTasksMsg}
use io_tware.Dcfw.Short
use io_tware.Dcfw.TaskData
use io_tware.Dcfw.MsgX02
use io_tware.Dcfw.MsgX03
use io_tware.Dcfw.MsgX04
use io_tware.Dcfw.MsgX05
use io_tware.Dcfw.MsgX10
use io_tware.Dcfw.MsgX13
use io_tware.Dcfw.MsgX14
use io_tware.Dcfw.MsgX15
use io_tware.Dcfw.MsgX16
use io_tware.Dcfw.MsgX17
use io_tware.Dcfw.MsgX18
use io_tware.Dcfw.Faults.{
  serialize-no_memory, parse-cut_short, parse-no_payload, Travels, tasks-travel_as_pointer,
}

abbrev heap : Calloc
heap _ _ = true

abbrev full : Calloc
full _ _ = false

abbrev head : DataHead
head = record {
  header = record { ack = 0; message_id = 0x15; dup = 1; qos = 1 };
  reserved = 0;
  length_field = 9;
}

abbrev fields : TaskFields
fields = record { task_id = 7; object_id = 4; attr_count = 1 }

abbrev attributes : List CmAttributePayload
attributes =
    record { attribute_id = 1; value_length = 2 }
    ∷ record { attribute_id = 9; value_length = 0 }
    ∷ []

abbrev values : List CmAttributeValuePayload
values =
    record { attribute_id = 1; value_length = 1; values = 10 ∷ 20 ∷ [] }
    ∷ record { attribute_id = 9; value_length = 0; values = 30 ∷ [] }
    ∷ []

abbrev member_info : MsgX03.CmMemberInfoPayload
member_info = record { fields = fields; items = attributes }

abbrev write_payload : MsgX15.CmAttributeWritePayload
write_payload = record { fields = fields; items = values }

abbrev ack_head : AckHead
ack_head = record {
  header = record { ack = 1; message_id = 0x16; dup = 0; qos = 0; reserved = 0; return_code = 0 };
  reserved = 0;
  length_field = 6;
}

abbrev ack_payload : MsgX16.CmAttributeReadAckPayload
ack_payload = record { fields = record { object_id = 4; attr_count = 1 }; items = values }

write_image : MsgX15.image head write_payload ≡ 234 ∷ 36 ∷ 7 ∷ 68 ∷ 65 ∷ 10 ∷ 20 ∷ 9 ∷ 30 ∷ []
write_image = refl

member_info_run :
    MsgX03.serialize heap (record { head = head; payload = some member_info })
    ≡ ok (record { size = 6; buf = some (234 ∷ 36 ∷ 7 ∷ 68 ∷ 129 ∷ 9 ∷ []) })
unfolding MsgX03.serialize attributes_serialize_size attributes_serialize write serialize_payload
    serialized_size fill
member_info_run = refl

member_info_roundtrip_example :
    (MsgX03.serialize heap (record { head = head; payload = some member_info })
      ≡ ok (record { size = 6; buf = some (234 ∷ 36 ∷ 7 ∷ 68 ∷ 129 ∷ 9 ∷ []) }))
    × (MsgX03.parse heap (234 ∷ 36 ∷ 7 ∷ 68 ∷ 129 ∷ 9 ∷ []) 6
        ≡ ok (some (record { head = head; payload = some member_info })))
member_info_roundtrip_example =
    MsgX03.member_info_roundtrip head member_info heap (λ _ _. refl) (omega arith)

attribute_write_roundtrip_example :
    (MsgX15.serialize heap (record { head = head; payload = some write_payload })
      ≡ ok (record { size = 9; buf = some (234 ∷ 36 ∷ 7 ∷ 68 ∷ 65 ∷ 10 ∷ 20 ∷ 9 ∷ 30 ∷ []) }))
    × (MsgX15.parse heap (234 ∷ 36 ∷ 7 ∷ 68 ∷ 65 ∷ 10 ∷ 20 ∷ 9 ∷ 30 ∷ []) 9
        ≡ ok (some (record { head = head; payload = some write_payload })))
unfolding real_value_length
attribute_write_roundtrip_example =
    MsgX15.attribute_write_roundtrip head write_payload heap (λ _ _. refl) (omega arith)

attribute_read_roundtrip_example :
    (MsgX16.serialize heap (record { head = head; payload = some member_info })
      ≡ ok (record { size = 6; buf = some (234 ∷ 36 ∷ 7 ∷ 68 ∷ 129 ∷ 9 ∷ []) }))
    × (MsgX16.parse heap (234 ∷ 36 ∷ 7 ∷ 68 ∷ 129 ∷ 9 ∷ []) 6
        ≡ ok (some (record { head = head; payload = some member_info })))
attribute_read_roundtrip_example =
    MsgX16.attribute_read_roundtrip head member_info heap (λ _ _. refl) (omega arith)

task_data_roundtrip_example :
    ((MsgX17.serialize heap (record { head = head; payload = some write_payload })
        ≡ ok (record { size = 9; buf = some (234 ∷ 36 ∷ 7 ∷ 68 ∷ 65 ∷ 10 ∷ 20 ∷ 9 ∷ 30 ∷ []) }))
      × (MsgX17.parse heap (234 ∷ 36 ∷ 7 ∷ 68 ∷ 65 ∷ 10 ∷ 20 ∷ 9 ∷ 30 ∷ []) 9
          ≡ ok (some (record { head = head; payload = some write_payload }))))
    × ((MsgX18.serialize heap (record { head = head; payload = some write_payload })
          ≡ ok (record { size = 9; buf = some (234 ∷ 36 ∷ 7 ∷ 68 ∷ 65 ∷ 10 ∷ 20 ∷ 9 ∷ 30 ∷ []) }))
        × (MsgX18.parse heap (234 ∷ 36 ∷ 7 ∷ 68 ∷ 65 ∷ 10 ∷ 20 ∷ 9 ∷ 30 ∷ []) 9
            ≡ ok (some (record { head = head; payload = some write_payload }))))
unfolding real_value_length
task_data_roundtrip_example =
    TaskData.task_data_roundtrip head write_payload head write_payload heap (λ _ _. refl)
      (omega arith) (omega arith)

ack_roundtrip_example :
    (MsgX16.ack_serialize heap (record { head = ack_head; payload = some ack_payload })
      ≡ ok (record { size = 9; buf = some (45 ∷ 0 ∷ 24 ∷ 68 ∷ 65 ∷ 10 ∷ 20 ∷ 9 ∷ 30 ∷ []) }))
    × (MsgX16.ack_parse heap (45 ∷ 0 ∷ 24 ∷ 68 ∷ 65 ∷ 10 ∷ 20 ∷ 9 ∷ 30 ∷ []) 9
        ≡ ok (some (record { head = ack_head; payload = some ack_payload })))
unfolding real_value_length
ack_roundtrip_example = MsgX16.ack_roundtrip ack_head ack_payload heap (λ _ _. refl) (omega arith)

short_messages-travel_example :
    ((4 ≡ (MsgX02.serialize heap MsgX02.connect).size)
      × (MsgX02.parse (132 ∷ 0 ∷ 0 ∷ 0 ∷ []) 4 ≡ some MsgX02.connect))
    × ((3 ≡ (MsgX04.serialize heap MsgX04.set_device_mode).size)
        × (MsgX04.parse (136 ∷ 4 ∷ 0 ∷ []) 3 ≡ some MsgX04.set_device_mode))
    × ((4 ≡ (MsgX05.ack_serialize heap MsgX05.check_status_ack).size)
        × (MsgX05.ack_parse (11 ∷ 0 ∷ 4 ∷ 0 ∷ []) 4 ≡ some MsgX05.check_status_ack))
    × ((MsgX02.serialize heap MsgX02.connect).buf ≡ some (132 ∷ 0 ∷ 0 ∷ 0 ∷ []))
unfolding MsgX02.serialize MsgX04.serialize MsgX05.ack_serialize MsgX02.parse
short_messages-travel_example =
    Short.short_messages-travel heap MsgX02.connect MsgX02.connect MsgX04.set_device_mode
      MsgX05.check_status_ack (132 ∷ 0 ∷ 0 ∷ 0 ∷ []) (136 ∷ 4 ∷ 0 ∷ []) (11 ∷ 0 ∷ 4 ∷ 0 ∷ [])
      (132 ∷ 0 ∷ 0 ∷ 0 ∷ 99 ∷ []) (omega arith) (omega arith) (omega arith) refl refl refl
      (omega arith) refl refl

serialize-no_memory_example :
    (MsgX03.serialize full (record { head = head; payload = some member_info })
      ≡ ok (record { size = 6; buf = none }))
    × (MsgX16.serialize full (record { head = head; payload = some member_info }) ≡ undefined)
serialize-no_memory_example = serialize-no_memory head member_info full (omega arith) refl

parse-cut_short_example :
    (MsgX03.parse heap (234 ∷ 36 ∷ 7 ∷ 68 ∷ 129 ∷ []) 5 ≡ undefined)
    × (MsgX17.parse heap (234 ∷ 36 ∷ 7 ∷ 68 ∷ 129 ∷ []) 5 ≡ undefined)
parse-cut_short_example =
    parse-cut_short head fields (129 ∷ []) heap (λ _ _. refl) (omega arith) (omega arith)
      (omega arith) (omega arith)

parse-no_payload_example :
    (MsgX17.parse heap (234 ∷ 36 ∷ 7 ∷ []) 3 ≡ ok (some (record { head = head; payload = none })))
    × (MsgX15.parse heap (234 ∷ 36 ∷ 7 ∷ []) 3 ≡ undefined)
parse-no_payload_example = parse-no_payload head (7 ∷ []) heap (omega arith) (omega arith)

abbrev pointing : CmTasksMsg
pointing = record {
  header = record { ack = 0; message_id = 0x10; dup = 0; qos = 1 };
  reserved = 0;
  length_field = 12;
  tasks = 0x20001234;
}

tasks-travel_as_pointer_example :
    Travels MsgX10.serialize MsgX10.parse heap pointing
    × Travels MsgX13.serialize MsgX13.parse heap pointing
    × Travels MsgX14.serialize MsgX14.parse heap pointing
tasks-travel_as_pointer_example = tasks-travel_as_pointer pointing heap (omega arith) refl

packing-inverts_example :
    ((packed_attr_count 256 < 256) × (real_attr_count (packed_attr_count 256) ≡ 256))
    × ((real_value_length 3 ≡ 8) × (packed_value_length (real_value_length 3) ≡ 3))
packing-inverts_example = packing-inverts 256 3 (omega arith) (omega arith)
