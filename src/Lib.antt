-- ===== src/Lib.antt =====
-- The firmware of a small Wi-Fi controller that sits between the wall panel and the main board of
-- an air conditioner. Each board sends frames on a serial line at 9600 baud; the firmware passes
-- them on, decodes them, and puts a control request that came over Wi-Fi or Zigbee into the panel's
-- frames.
--
-- The program's parts and the modules that model them:
-- - main/ac_protocol.c, main/ac_protocol.h: `Protocol`. A pointer to bytes is a list of numbers
--   below 256, an out-parameter with a Boolean result is an `Option`, and
--   `ac_protocol_apply_control` is cut into the stages of its body (Protocol/Control). Check byte
--   (Frame, Checksum), decoding (Parse), flags of byte 5 (Flags), each written byte (Bytes), and
--   the frames that are made (Written) and read back (Readback, ReadbackMain).
-- - main/bridge_service.c, main/bridge_service.h: `Bridge`. The static variables are the record
--   `Service` (Types); every function that changes them takes a service and gives the next one.
--   What a function sends, to a UART or to `publish_frame`, is added to the list `log`. Match: the
--   tests of a decoded state against a request. Mirror:
--   `set_panel_to_main_hardware_mirror_enabled`. Update: `update_panel_state`, `update_main_state`.
--   Queue: `bridge_service_queue_control`, `bridge_service_set_hardware_ready`. Tasks: one round of
--   `control_takeover_task` and of `control_watchdog_task`. Frames: `process_complete_frame`.
--   Stream: the hybrid path, `flush_stream_raw`, `consume_byte`. Round: a round of `stream_task`.
--   Boot: the variables after `bridge_service_start`. Publish: `publish_frame`. Health:
--   `health_task`. View: `bridge_service_get_ac_state`. Reach: the tasks and the callers as steps
--   in any order, on the proofs in Command, Invariant, Handlers and Steps. Further proofs: Merge
--   and Conflict on merged requests, Gate on the checks of a request, Deadline on the watchdog,
--   Hybrid and Framing on the streams, Rollback on the route, Codes and Shown on the frame that
--   carries a request.
-- - main/nts0104_preflight.c: `Preflight.Interlock`, with its invariant in Preflight/Inv; the use
--   that `app_main` of main/main.c makes of it is Preflight/Startup.
-- - main/telemetry.c: `Telemetry`, and Telemetry/Ring for what a reader gets of a run.
-- - main/capture_store.c, main/capture_store.h: `Capture`. Crc: `crc32_bytes`. Layout: a record and
--   its bytes, `record_valid`, `record_erased`. Flash: the driver of the partition, which belongs
--   to ESP-IDF, as a parameter with its laws. Store: the static variables, `refresh_info_locked`,
--   `enqueue_record` and its callers, `capture_store_get_info`, `capture_store_get_after`. Write:
--   `forget_sector_locked`, `prepare_next_slot_locked`, `write_request`. Init:
--   `capture_store_init`. The proofs: Detect on the CRC, RoundTrip on the bytes of a record, Queue
--   on the requests that wait, Summary on the counters, Inv and Start on the place of the next
--   record, Mirror, Prepare and Keep on the array against the flash, Recover on a restart, Next,
--   Answer and Deliver on what a reader gets.
-- - main/mqtt_service.c, main/web_service.c and
--   optional_components/zigbee_service/zigbee_service.c: `Clients`, the callers of the bridge.
--   Names: the names of modes and fan speeds. Json: cJSON and the C library as a parameter, and the
--   tests of an item. Mqtt: the handlers under `handle_command_topic`, with `parse_complete_json`,
--   `parse_string_payload` and `parse_integer_payload` in Mqtt/Payload; `mqtt_event_handler` and a
--   round of `mqtt_worker` in Mqtt/Events; the topics, `choose_device_id` and `mqtt_service_start`
--   in Mqtt/Start; `publish_state_now` in Mqtt/State. Web: `control_handler`, `secure_token_equal`,
--   `request_authorized`; the buffer of a response in Web/Buffer, `capture_export_handler` and
--   `query_after` in Web/Export, `logs_handler` in Web/Logs, `marker_handler` and `read_json_body`
--   in Web/Marker, `ota_handler` and `reboot_handler` in Web/Ota. Zigbee: `set_attr_value_handler`,
--   with the SDK's numbers as a parameter, and `refresh_state_locked` in Zigbee/Report. The proofs:
--   Issue, and the module Issue of each caller, on the requests that it makes (for the web service
--   on those of Web/Fields), Reach on the commands as steps of the bridge, Mqtt/Refused on commands
--   that never get through, Mqtt/Handled on the events and the worker, Mqtt/Routing on the topics,
--   Web/Token on the comparison of the tokens, Web/Line, Whole and Exported on the export,
--   Web/Listed on the lines of the ring, Web/Marked on the markers, Web/Updated on the update,
--   Web/Published on a frame from the bridge to the export.
-- - main/wifi_service.c, main/wifi_service.h: `Wifi`, with the calls of the driver in Wifi/Access
--   and the status after its events in Wifi/Status.
-- - `Common` holds the helpers: tests on numbers, arrays as lists, texts with the conversions of
--   `snprintf` and `strtoull`, the laws of bits. `Tests` holds the theorems at concrete inputs.
--
-- How the parts interact: `stream_task` feeds the bytes of each side to `consume_byte`, which hands
-- complete frames to `process_complete_frame`; that updates the state, and puts the request that
-- `bridge_service_queue_control` has left in the overlay into a frame of the panel. A frame of the
-- main board confirms the request, the watchdog ends it after five seconds, and a new action on the
-- panel or the loss of the hardware cancels it. `app_main` lets requests in only when the interlock
-- has enabled the translator. A command of the MQTT broker, the web page or the Zigbee network
-- becomes one request. `publish_frame` hands each frame to `capture_store_record_frame`; the task
-- of the capture store takes the records from its queue and writes them with `write_request`.
--
-- Choices: pointers are not null, since no caller passes null. Times are microseconds since the
-- start of the program, as natural numbers, and one reading of the clock serves for a whole
-- handler; where a difference of times would be negative in C it is 0 here, and the comparison
-- comes out the same. Counters of 32 and 64 bits keep their wrap-around. Results of drivers are
-- arguments. The record `Profile` holds the switches that the five profiles of main/CMakeLists.txt
-- set differently; a switch that no profile sets has its default, 0. A caller of
-- `bridge_service_queue_control` names a mode in one way only, by a raw code or by a mode and a fan
-- speed, as the handler in main/web_service.c checks. In Bridge/Reach the handling of one byte is
-- one step, although `consume_byte` has several critical sections. `consume_byte` runs its loop on
-- two rounds of fuel, which is enough. The loop of `capture_export_handler` has 2 ^ 32 rounds of
-- fuel, one for each sequence number; since the numbers grow, they are enough. A body or a result
-- of the HTTP server, of the MQTT client and of the Wi-Fi driver is an argument of the function
-- that uses it.
--
-- Not modelled: the texts of telemetry lines but that of a frame, pad monitors and probes that no
-- profile compiles, the pad levels and edge counters that `bridge_service_get_ac_state` adds, the
-- panel bench emulator; of the clients, the web service's answers that only print a status, and its
-- page; the JSON objects that the MQTT service publishes, and the start of the Zigbee stack, which
-- is calls of its SDK.
pub mod Common
pub mod Protocol
pub mod Bridge
pub mod Preflight
pub mod Telemetry
pub mod Capture
pub mod Clients
pub mod Wifi
pub mod Tests
