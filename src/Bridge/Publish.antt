-- ===== src/Bridge/Publish.antt =====
-- main/bridge_service.c: `publish_frame`, which hands a frame to the capture store and prints it as a
-- line of telemetry.
use lin_tac09cpbpsl_esp32c.Common.{
  ℕ, ◌+◌, Bool, List, ◌++◌, length, if◌then◌else◌, codes, print_u32, print_i64, hex_loop,
}
use lin_tac09cpbpsl_esp32c.Protocol.Wire.{max_frame_size}
use lin_tac09cpbpsl_esp32c.Bridge.Types.{Side, Kind}
use lin_tac09cpbpsl_esp32c.Bridge.Update.{same_bytes}
use lin_tac09cpbpsl_esp32c.Capture.Store.{Store, capture_store_record_frame}

-- The names of `k_panel_side` and `k_main_side`.
unfoldable pub side_name : Side → List ℕ
side_name Side.panel = codes "panel_to_main"
side_name Side.main = codes "main_to_panel"

-- The texts that `publish_frame` is called with.
unfoldable pub kind_text : Kind → List ℕ
kind_text Kind.initial = codes "initial"
kind_text Kind.state_change = codes "state_change"
kind_text Kind.event = codes "event"
kind_text Kind.wifi_command = codes "wifi_command"
kind_text Kind.checksum_error = codes "checksum_error"
kind_text Kind.unexpected_length = codes "unexpected_length"
kind_text Kind.bad_header = codes "bad_header"
kind_text Kind.overflow = codes "overflow"
kind_text Kind.bad_length = codes "bad_length"
kind_text Kind.timeout = codes "timeout"

-- `capture_direction` and `capture_kind`
unfoldable pub capture_direction : List ℕ → ℕ
unfolding same_bytes
capture_direction direction =
    if same_bytes direction (codes "panel_to_main")
    then 1
    else if same_bytes direction (codes "main_to_panel")
    then 2
    else 0

unfoldable pub capture_kind : List ℕ → ℕ
unfolding same_bytes
capture_kind kind =
    if same_bytes kind (codes "initial")
    then 1
    else if same_bytes kind (codes "state_change")
    then 2
    else if same_bytes kind (codes "event")
    then 3
    else if same_bytes kind (codes "wifi_command")
    then 4
    else 5

-- `format_hex`
unfoldable pub format_hex : ℕ → List ℕ → List ℕ
unfolding hex_loop
format_hex output_size bytes = hex_loop output_size 0 bytes

-- The line that `publish_frame` prints.
unfoldable pub telemetry_line : ℕ → List ℕ → List ℕ → List ℕ → List ℕ
unfolding format_hex
telemetry_line now direction kind frame =
    codes "FRAME,t_us="
    ++ (print_i64 now
        ++ (codes ",direction="
            ++ (direction
                ++ (codes ",kind="
                    ++ (kind
                        ++ (codes ",len="
                            ++ (print_u32 (length frame)
                                ++ (codes ",hex="
                                    ++ format_hex (max_frame_size + max_frame_size + 1)
                                        frame))))))))

-- `publish_frame`: the store, and the line. `room` tells whether the queue of the store takes the
-- frame; the two times are those of the store and of the line.
unfoldable pub publish_frame : List ℕ → List ℕ → List ℕ → Bool → ℕ → ℕ → Store → Store × List ℕ
unfolding capture_direction capture_kind capture_store_record_frame telemetry_line
publish_frame direction frame kind room now later s = (
  capture_store_record_frame room now (capture_direction direction) (capture_kind kind) frame s,
  telemetry_line later direction kind frame,
)
