-- ===== src/Lib.antt =====
-- IoTware framework: a model of the message layers of the framework, with the theorems that make
-- them correct. IoTware runs microservices made of tasks on small IoT devices. DCFW
-- (IotwareFW/Microservice/DCFW) is the binary protocol by which the devices of a cluster
-- collaborate; SIFW (IotwareFW/Microservice/SIFW) has the text messages by which a server
-- controls a device: a header and a body, each a dictionary of texts, numbers, arrays and
-- dictionaries. SMFW (IotwareFW/Microservice/SMFW) keeps the microservices and their tasks, and
-- the dispatcher of SIFW calls it for each request. Below them, the OS abstraction layer
-- (IotwareFW/oal) has queues, lists and the tables of devices, and ROFW watches the battery.
--
-- Dcfw models IotwareFW/Microservice/DCFW. Dcfw/Layout.antt has the packed structs and their
-- bytes (iw_fw_collabomsg_internal.h); Dcfw/Fixed.antt the routines for messages of one struct
-- and Dcfw/Attributes.antt those for attribute lists (both iw_fw_collabomsg_internal.c);
-- Dcfw/Items.antt is the interface between these lists and the messages; Dcfw/Payload.antt what
-- the messages with a payload share; Dcfw/MsgX00.antt to MsgX18.antt one message file each
-- (iw_fw_msg_id_x00.c to x18.c), where serialize is cm_msg_xNN_serialize, parse
-- cm_msg_xNN_parse, and so on. Common has lists with native lengths, byte buffers and undefined
-- behaviour.
--
-- Sifw models IotwareFW/Microservice/SIFW/iw_fw_lwMsgUtils.c and .h. Sifw/Text.antt has
-- characters and _lwm_is_token; Sifw/Object.antt the objects (LwmObject is LWMObject, Fields
-- LWMDictionary, Items LWMArray) with get_lwm_object_from_dict, set_lwm_object_to_dict,
-- _delete_lwm_kvo_by_key and add_lwm_object_to_array; Sifw/Serialize.antt the functions
-- serialize_lwm_*; Sifw/Parse.antt parse_lwm_message_str and its parts (dict_loop is
-- _lwm_dict_parsing, kvo_parsing _lwm_kvo_parsing, array_start and array_loop
-- _lwm_new_array_parsing). A C string is the list of its bytes before the NUL, and a pointer
-- into it is what is left from there. Sifw/Wire.antt has the text form written down
-- independently of the loops; Sifw/Serialize/Printed.antt compares the serialiser with it, and
-- Sifw/Parse/Scans.antt, Steps.antt, Entries.antt and RoundTrip.antt the parser;
-- Sifw/Parse/Ends.antt, Follow.antt and Fuel.antt are about the parser's end;
-- Sifw/Dictionary.antt is about the dictionary as a map, Sifw/Numbers.antt about the decimal
-- text of a number, and Sifw/Faults.antt about messages that are not carried. Every malloc
-- succeeds in Sifw. A list is kept from its head on, where iw_add_list_node puts a node: the
-- machine is taken to be one where the address 0 can be written to (see Oal/Linked.antt). A float is the pair of (int)x and (int)(x * 100), which is all that the
-- serialiser takes from it; long has 32 bits.
--
-- Smfw models IotwareFW/Microservice/SMFW/iw_fw_microservices.c with the structs and macros of
-- its header and of iw_fw_types_internal.h. Smfw/State.antt has the structs (Service is
-- stMicroServiceInfo), Smfw/Links.antt the task links (make_task_links, _find_last_task_link),
-- Smfw/Parameters.antt the parameters, Smfw/Values.antt their values as texts and bytes (with
-- _parameter_set_by_string of SIFW/task_lwmsg_dist.c), Smfw/Tasks.antt the tasks,
-- Smfw/Connect.antt the connect lines and task_onoff, Smfw/Lifecycle.antt create, run, stop and
-- delete, Smfw/BaseTasks.antt base_task_type3, and Smfw/Registry.antt the list of services and
-- the reports about them. Smfw/Links/Tree.antt describes the links as a tree;
-- Smfw/Connect/Output.antt, Ends.antt and Settle.antt are about what set_output_connect_line
-- finds, Smfw/Lifecycle/Sound.antt, Running.antt and Reach.antt about the services that the
-- operations lead to, Start.antt about deleting, creating and running a service, Restart.antt about running
-- one twice, Smfw/Values/RoundTrip.antt
-- about values that are set and read. A pointer to a task is its address, a pointer to a link the
-- way from the head, and a mutex says whether it is held: taking it again is `deadlock`, since
-- one task serves all requests. What the framework calls is a record, Env: the kernel's queues
-- and tasks, the functions of the application (`init`, and `create` of each service), and
-- floating-point numbers. Every malloc succeeds.
--
-- Sifw/Dispatch.antt models lwmsg_dist_task of SIFW/task_lwmsg_dist.c: Dispatch/Services.antt
-- has _lwmsg_operation and _lwmsg_offloarding, Dispatch/Params.antt _lwmsg_param_set and
-- _lwmsg_param_read, Dispatch/Output.antt _lwmsg_output_param_read; Sifw/Build.antt the
-- constructors and accessors of messages, Sifw/Key.antt the keys; Sifw/Reception.antt a round of
-- iw_fw_lwMsgRx (SIFW/iw_fw_lwMsgCore.c). The device is the list of services, the messages given
-- to response_lwmsg and those put into the queues of tasks. Dispatch/Unblocked.antt and
-- Dispatch/Sound.antt with its children are about the services that requests leave,
-- Dispatch/Information.antt about what asking for information does, Dispatch/Unset.antt about
-- setting parameters.
--
-- Oal models IotwareFW/oal/iw/iw_oal_fifo.c, a ring of fixed-size blocks between two tasks:
-- Oal/Fifo.antt has its operations by their names, on the list of the memory's blocks and with
-- unsigned positions of 32 bits; Oal/Fifo/Ring.antt is about the ring of positions,
-- Oal/Fifo/Queue.antt about single operations, and Oal/Fifo/Refine.antt compares sequences of
-- them with a bounded queue. Oal/Linked.antt models IotwareFW/oal/iw/iw_oal_list.c on a heap of
-- nodes; Oal/Linked/Segment.antt has runs of linked nodes, Oal/Linked/Refine.antt is about
-- adding a node, Oal/Linked/Unlink.antt, Last.antt and Remove.antt about removing one, and
-- Oal/Linked/Clear.antt about the loop that deletes all nodes.
--
-- Device models the device tables of IotwareFW/oal/iw. Device/Table.antt has the structs and the
-- registrations, which iw_dev_sensor.c and iw_dev_net.c share, Device/Lookup.antt their
-- searches, Device/Info.antt the records that they hand out, and Device/Forward.antt what their
-- calls into a driver have in common; Device/Sensor.antt and Device/Net.antt have these calls by
-- their names, with read_sensor and send_data_network of IotwareFW/oal/interface.
-- Device/Connection.antt is netConnectionTask, Device/Credentials.antt the WiFi, LoRa and BLE
-- data, Device/Status.antt the status functions of iw_sys.c, Device/Led.antt iw_dev_led.c, and Device/Strings.antt strlen, strcmp and the like.
-- A string is what its array holds from the pointer on, with the NUL. A driver is a record of
-- functions that get the device's entry and a world of their own, and change these two only.
-- Device/Table/Registered.antt compares the table with a sequence, Device/Lookup/Found.antt and
-- Names.antt are about what is found, Device/Connection/Run.antt about the rounds of the
-- connection task, Device/Credentials/Wifi.antt and Lora.antt about what is read back, and
-- Device/LowBattery.antt about the battery's level and these calls.
--
-- Power models the battery: Power/Battery.antt has its port (IotwareFW/oal/iw/iw_dev_batt.c),
-- Power/Status.antt its percentage and the power modes (IotwareFW/oal/iw/iw_sys.c), and
-- Power/Service.antt autocontrol_lowbattery (IotwareFW/Microservice/ROFW/service.c). The board's
-- converter is a parameter, and a read that fails leaves the variable alone.
--
-- Counts. nodeNum of a list has eight bits (iw_oal.h), and the code tests it where a list is empty,
-- has one node, or is deleted: LIST_FOREACH_TO_DEL ends where it is 0. node_num and delete_all of
-- Common/Lists.antt, and field_num, item_num and delete_fields of Sifw/Object.antt, are this count
-- and this loop for the lists of Smfw and Sifw, so that a list of 256 nodes passes for an empty one
-- and is not deleted, as in Oal/Linked.antt. task_idx is such a count as well.
--
-- State and errors. A buffer is the list of its bytes; `undefined` is the result of an access
-- outside a buffer, of one through a null pointer, and of the use of a value that was never set.
-- `none` for a parsed struct means that the function returns it uninitialised. calloc is a
-- parameter: whether its k-th call in a routine succeeds. Bit-fields are laid out from the
-- lowest bit on, and pointers and size_t have 32 bits, as on the ARM boards of the repository.
-- Fuel. The loop that deletes a list takes 256 rounds, which is enough since its count has eight
-- bits. Else only the parser of Sifw takes it, and a run without is `out_of_fuel`: four units for
-- each character of the text and four more for a dictionary of a message, one for each character
-- and two more for the message. A call needs three for each character that is left and three
-- more at most, since a key and its `=` are read before a nested object is opened.
-- Sifw/Serialize.antt allows 20 digits to a number, and one of 32 bits has ten.
--
-- Not modelled: the transmission task of SIFW, which does not compile, the loops of the other
-- base tasks of SMFW and of the tasks of ROFW, which are never entered, the rest of the OS
-- abstraction layer, which forwards to a kernel that is not in the repository, the boards' set-up
-- and drivers, and the applications. Freeing memory and deleting queues, tasks and messages leave no trace in the
-- model.
pub mod Common
pub mod Dcfw
pub mod Device
pub mod Oal
pub mod Power
pub mod Sifw
pub mod Smfw
