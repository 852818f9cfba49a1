-- ===== src/Wifi.antt =====
-- main/wifi_service.c: the status of the connection, and the start of the station and of the access
-- point. The driver belongs to ESP-IDF: the results of its calls and its events are arguments.
pub mod Access
pub mod Status
use lin_tac09cpbpsl_esp32c.Common.{
  ℕ, ◌-◌, Bool, true, false, not, ◌&&◌, List, [], ◌∷◌, ◌++◌, Option, none, some, length, take, ltb,
  leb, ◌==◌, if◌then◌else◌, codes, decimal, hex_byte,
}

-- `wifi_service_status_t`
pub record WifiStatus : Type 0 where
  pub sta_connected : Bool
  pub ap_enabled : Bool
  pub sta_ip : List ℕ
  pub ap_ssid : List ℕ
  pub ap_password : List ℕ

-- The sizes of `sta_ip`, and of the arrays for a name and for a password: those of the status, and
-- those of `wifi_config_t`.
abbrev pub ip_size : ℕ
ip_size = 16

abbrev pub status_ssid_size : ℕ
status_ssid_size = 33

abbrev pub status_password_size : ℕ
status_password_size = 65

abbrev pub config_ssid_size : ℕ
config_ssid_size = 32

abbrev pub config_password_size : ℕ
config_password_size = 64

-- `s_status` as the program starts.
abbrev pub no_status : WifiStatus
no_status = record {
  sta_connected = false;
  ap_enabled = false;
  sta_ip = [];
  ap_ssid = [];
  ap_password = [];
}

-- `strlcpy`, and `snprintf` of a text: what an array of this size holds.
abbrev pub cut : ℕ → List ℕ → List ℕ
cut size text = take (size - 1) text

-- `IPSTR` of the four numbers of an address.
unfoldable pub ip_text : ℕ → ℕ → ℕ → ℕ → List ℕ
ip_text a b c d = decimal 3 a ++ (46 ∷ (decimal 3 b ++ (46 ∷ (decimal 3 c ++ (46 ∷ decimal 3 d)))))

-- The events of `network_event_handler`.
pub data NetworkEvent : Type 0 where
  sta_start sta_disconnected unrelated : NetworkEvent
  got_ip : ℕ → ℕ → ℕ → ℕ → NetworkEvent

-- `network_event_handler`, with whether it calls `esp_wifi_connect`.
unfoldable pub network_event_handler : NetworkEvent → WifiStatus → Bool × WifiStatus
unfolding ip_text
network_event_handler NetworkEvent.sta_start s = (true, s)
network_event_handler NetworkEvent.sta_disconnected s =
    (true, record s { sta_connected = false; sta_ip = [] })
network_event_handler NetworkEvent.unrelated s = (false, s)
network_event_handler (NetworkEvent.got_ip a b c d) s =
    (false, record s { sta_connected = true; sta_ip = cut ip_size (cut ip_size (ip_text a b c d)) })

-- KLIMA_WIFI_FALLBACK_AP_ENABLED, KLIMA_AP_PASSWORD, KLIMA_WIFI_SSID and KLIMA_WIFI_PASSWORD.
pub record Secrets : Type 0 where
  pub fallback : Bool
  pub password : List ℕ
  pub station_ssid : List ℕ
  pub station_password : List ℕ

-- `ap_enabled`
unfoldable pub ap_allowed : Secrets → Bool
ap_allowed x = x.fallback && leb 12 (length x.password) && leb (length x.password) 63

-- `KlimaWiFi-%02X%02X`, of the last two bytes of the address.
unfoldable pub ap_name : ℕ → ℕ → List ℕ
ap_name m n = codes "KlimaWiFi-" ++ (hex_byte 65 m ++ hex_byte 65 n)

-- The assignments of `wifi_service_start` to the status.
unfoldable pub note_access : Secrets → ℕ → ℕ → WifiStatus → WifiStatus
unfolding ap_allowed ap_name
note_access x m n s =
    if ap_allowed x
    then record s {
      ap_enabled = true;
      ap_ssid = cut status_ssid_size (ap_name m n);
      ap_password = cut status_password_size x.password;
    }
    else record s { ap_enabled = false; ap_ssid = []; ap_password = [] }

-- What is asked of the driver, from `esp_wifi_set_mode` on.
pub data Call : Type 0 where
  set_mode : Bool → Call
  config_ap : List ℕ → List ℕ → Call
  config_sta : List ℕ → List ℕ → Call
  start : Call
  set_ps : Bool → Call

-- The result of a call, `esp_err_t`.
pub data WifiErr : Type 0 where
  ok no_mem invalid_state other : WifiErr

-- `ESP_RETURN_ON_ERROR` on a call of the driver: its result, and the steps that follow where it is
-- ESP_OK. The calls that were made are collected.
unfoldable pub then_call : Call × WifiErr → WifiErr × List Call → WifiErr × List Call
then_call (call, WifiErr.ok) (err, calls) = (err, call ∷ calls)
then_call (call, err) rest = (err, call ∷ [])

-- The same for a call that comes before them, and is not collected.
unfoldable pub then_check : WifiErr → WifiErr × List Call → WifiErr × List Call
then_check WifiErr.ok rest = rest
then_check err rest = (err, [])

-- The results of the calls in their order; `mac` is the address, if it can be read.
pub record DriverResults : Type 0 where
  pub mac : Option (ℕ × ℕ)
  pub netif_init : WifiErr
  pub event_loop : WifiErr
  pub ap_netif : Bool
  pub sta_netif : Bool
  pub hostname : WifiErr
  pub wifi_init : WifiErr
  pub wifi_handler : WifiErr
  pub ip_handler : WifiErr
  pub mode_result : WifiErr
  pub ap_result : WifiErr
  pub sta_result : WifiErr
  pub start_result : WifiErr
  pub ps_result : WifiErr

-- The configuration and the start of the driver, with the status that was read.
unfoldable pub start_driver : Secrets → DriverResults → WifiStatus → WifiErr × List Call
unfolding then_call ap_allowed
start_driver x d s =
    let last = then_call (Call.set_ps (not (ap_allowed x)), d.ps_result) (WifiErr.ok, []) in
    let started = then_call (Call.start, d.start_result) last in
    let station =
      if ltb 0 (length x.station_ssid)
      then then_call
          (
            Call.config_sta (cut config_ssid_size x.station_ssid)
                (cut config_password_size x.station_password),
            d.sta_result,
          )
          started
      else started in
    let access =
      if ap_allowed x
      then then_call
          (
            Call.config_ap (cut config_ssid_size s.ap_ssid)
                (cut config_password_size s.ap_password),
            d.ap_result,
          )
          station
      else station in
    then_call (Call.set_mode (ap_allowed x), d.mode_result) access

-- `event_loop_result`: a loop that is there is no error.
unfoldable pub loop_result : WifiErr → WifiErr
loop_result WifiErr.invalid_state = WifiErr.ok
loop_result err = err

-- `!sta_netif || (ap_enabled && !ap_netif)`
unfoldable pub netif_result : Secrets → DriverResults → WifiErr
unfolding ap_allowed
netif_result x d =
    if not d.sta_netif
    then WifiErr.no_mem
    else if ap_allowed x && not d.ap_netif
    then WifiErr.no_mem
    else WifiErr.ok

-- `wifi_service_start`, without mDNS, whose result only decides on a line of telemetry.
unfoldable pub wifi_service_start :
    Secrets → DriverResults → WifiStatus → (WifiErr × List Call) × WifiStatus
unfolding note_access start_driver then_check loop_result netif_result
wifi_service_start x d s = elim (d.mac) [
  | none ↦ ((WifiErr.other, []), s)
  | some (m, n) ↦
      let t = note_access x m n s in
      (
        then_check d.netif_init (
            then_check (loop_result d.event_loop) (
              then_check (netif_result x d) (
                then_check d.hostname (
                  then_check d.wifi_init
                    (then_check d.wifi_handler (then_check d.ip_handler (start_driver x d t))))))),
        t,
      )
]
