-- ===== src/Wifi/Status.antt =====
-- main/wifi_service.c: the status of the connection after any events of the driver.
use lin_tac09cpbpsl_esp32c.Common.{
  ℕ, ◌≤◌, ◌≡◌, refl, ap, ◌∙◌, true, false, List, [], ◌∷◌, ◌++◌, Option, none, some, length,
  length-append, length-decimal, decimal, take_short, arith,
}
use lin_tac09cpbpsl_esp32c.Wifi.{
  WifiStatus, NetworkEvent, ip_size, cut, ip_text, network_event_handler,
}

-- The status after the events, of which the newest comes first.
unfoldable pub after_events : List NetworkEvent → WifiStatus → WifiStatus
after_events [] s = s
after_events (e ∷ es) s = (network_event_handler e (after_events es s)).1

-- The text of the address that the driver gave last, unless the station was disconnected since.
unfoldable pub last_address : List NetworkEvent → Option (List ℕ)
last_address [] = none
last_address (NetworkEvent.got_ip a b c d ∷ es) = some (ip_text a b c d)
last_address (NetworkEvent.sta_disconnected ∷ es) = none
last_address (NetworkEvent.sta_start ∷ es) = last_address es
last_address (NetworkEvent.unrelated ∷ es) = last_address es

-- The status shows this address and the connection, or an empty text and none.
abbrev pub Shows : Option (List ℕ) → WifiStatus → Type 0
Shows none s = (s.sta_connected ≡ false) × (s.sta_ip ≡ [])
Shows (some text) s = (s.sta_connected ≡ true) × (s.sta_ip ≡ text)

ip_text-short : (a b c d : ℕ) → length (ip_text a b c d) ≤ 15
unfolding ip_text
ip_text-short a b c d = omega (
  arith,
  length-decimal 3 a,
  length-decimal 3 b,
  length-decimal 3 c,
  length-decimal 3 d,
  length-append (decimal 3 c) (46 ∷ decimal 3 d),
  length-append (decimal 3 b) (46 ∷ (decimal 3 c ++ (46 ∷ decimal 3 d))),
  length-append (decimal 3 a) (46 ∷ (decimal 3 b ++ (46 ∷ (decimal 3 c ++ (46 ∷ decimal 3 d))))),
)

ip_text-whole : (a b c d : ℕ) → cut ip_size (cut ip_size (ip_text a b c d)) ≡ ip_text a b c d
ip_text-whole a b c d =
    let once = take_short 15 (ip_text a b c d) (ip_text-short a b c d) in
    ap (λ t. cut ip_size t) once ∙ once

-- After any events, the status of a station that began without a connection shows the whole address
-- that was given last, or none where there was none or the station was disconnected since; the access
-- point's part is as at the start.
pub after_events-Shows :
    (es : List NetworkEvent) (s : WifiStatus)
    → s.sta_connected ≡ false
    → s.sta_ip ≡ []
    → Shows (last_address es) (after_events es s) × ((after_events es s).ap_enabled ≡ s.ap_enabled)
unfolding after_events last_address network_event_handler
after_events-Shows [] s h k = ((h, k), refl)
after_events-Shows (NetworkEvent.got_ip a b c d ∷ es) s h k =
    ((refl, ip_text-whole a b c d), (after_events-Shows es s h k).1)
after_events-Shows (NetworkEvent.sta_disconnected ∷ es) s h k =
    ((refl, refl), (after_events-Shows es s h k).1)
after_events-Shows (NetworkEvent.sta_start ∷ es) s h k = after_events-Shows es s h k
after_events-Shows (NetworkEvent.unrelated ∷ es) s h k = after_events-Shows es s h k
