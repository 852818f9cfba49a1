-- ===== src/Clients/Reach.antt =====
-- The events of the broker, and the commands of the Zigbee network and of the web page, as steps of
-- the bridge.
use lin_tac09cpbpsl_esp32c.Common.{ℕ, ◌<◌, sym, subst, Bool, List, Option, inl, inr}
use lin_tac09cpbpsl_esp32c.Bridge.Types.{Profile, Route, Service}
use lin_tac09cpbpsl_esp32c.Bridge.Boot.{boot}
use lin_tac09cpbpsl_esp32c.Bridge.Command.{command}
use lin_tac09cpbpsl_esp32c.Bridge.Invariant.{IsValid}
use lin_tac09cpbpsl_esp32c.Bridge.Reach.{Step, Reach, Reach-IsValid}
use lin_tac09cpbpsl_esp32c.Clients.Issue.{Issued}
use lin_tac09cpbpsl_esp32c.Clients.Json.{Library}
use lin_tac09cpbpsl_esp32c.Clients.Zigbee.{Zcl, Message, set_attr_value_handler}
use lin_tac09cpbpsl_esp32c.Clients.Zigbee.Issue.{set_attr_value_handler-Issued}
use lin_tac09cpbpsl_esp32c.Clients.Mqtt.{Topics}
use lin_tac09cpbpsl_esp32c.Clients.Mqtt.Events.{Client, Event, mqtt_event_handler}
use lin_tac09cpbpsl_esp32c.Clients.Mqtt.Handled.{mqtt_event_handler-Issued}
use lin_tac09cpbpsl_esp32c.Clients.Web.{control_handler}
use lin_tac09cpbpsl_esp32c.Clients.Web.Issue.{control_handler-Issued}

-- An event of the broker, or a command from one of the two other callers.
pub data Caller : Type 1 where
  mqtt : Library → Topics → Event → Client → Caller
  zigbee : Zcl → Message → Caller
  web : Library → Bool → Option (List ℕ) → Caller

-- The service after a command.
unfoldable pub serve : Profile → ℕ → Caller → Service → Service
serve p now (Caller.mqtt j n e c) s = (mqtt_event_handler j p now n e c s).2
serve p now (Caller.zigbee z m) s = (set_attr_value_handler z p now m s).1
serve p now (Caller.web j authorized body) s = (control_handler j p now authorized body s).1

Issued-Reach :
    {p : Profile} {start s t : Service} {now : ℕ} {told : Bool}
    → 0 < now
    → Reach p start s
    → Issued p now s told t
    → Reach p start t
Issued-Reach {p} {start} h r (inl (a, e)) = subst (Reach p start) (sym e) r
Issued-Reach {p} {start} {s} {t} {now} h r (inr (a, q, v, ok, e)) =
    subst (Reach p start) (sym e) (Reach.next r (Step.queue s now q h v.one_code))

serve-Reach :
    (p : Profile) (start s : Service) (now : ℕ) (caller : Caller)
    → 0 < now
    → Reach p start s
    → Reach p start (serve p now caller s)
unfolding serve
serve-Reach p start s now (Caller.mqtt j n e c) h r =
    Issued-Reach h r (mqtt_event_handler-Issued j p now n e c s)
serve-Reach p start s now (Caller.zigbee z m) h r =
    Issued-Reach h r (set_attr_value_handler-Issued z p now m s)
serve-Reach p start s now (Caller.web j authorized body) h r =
    Issued-Reach h r (control_handler-Issued j p now authorized body s)

-- An event of the broker or a command of another caller, in any state that the tasks and the earlier
-- commands can bring about, leaves the service valid.
pub serve-IsValid :
    (p : Profile) (route : Route) (s : Service) (now : ℕ) (caller : Caller)
    → 0 < now
    → Reach p (boot p route) s
    → IsValid (command (serve p now caller s))
serve-IsValid p route s now caller h r =
    Reach-IsValid p route (serve-Reach p (boot p route) s now caller h r)
