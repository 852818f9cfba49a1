-- ===== src/Wifi/Access.antt =====
-- main/wifi_service.c: what `wifi_service_start` asks of the driver.
use lin_tac09cpbpsl_esp32c.Common.{
  ℕ, ◌≤◌, ◌≡◌, refl, ap, subst, ◌∙◌, Bool, true, false, not, ◌&&◌, List, [], ◌∷◌, ◌++◌, some,
  length, take, ltb, leb, if◌then◌else◌, take_short, length-take, hex_byte, arith,
}
use lin_tac09cpbpsl_esp32c.Wifi.{
  WifiStatus, Secrets, Call, WifiErr, DriverResults, config_ssid_size, config_password_size, cut,
  ap_allowed, ap_name, note_access, then_call, then_check, start_driver, loop_result, netif_result,
  wifi_service_start,
}

-- The calls for the station, where a network is named.
unfoldable pub station_plan : Bool → Secrets → List Call
station_plan opened x =
    if ltb 0 (length x.station_ssid)
    then Call.config_sta (take 31 x.station_ssid) (take 63 x.station_password)
      ∷ Call.start
      ∷ Call.set_ps (not opened)
      ∷ []
    else Call.start ∷ Call.set_ps (not opened) ∷ []

-- An access point is asked for, and its password has 12 to 63 characters.
unfoldable pub may_open : Secrets → Bool
may_open x = x.fallback && leb 12 (length x.password) && leb (length x.password) 63

-- All calls, for an address with these last two bytes: an access point with the whole name and the
-- whole password, where it is to be openeded, and no call for one where it is not.
unfoldable pub plan : Bool → Secrets → ℕ → ℕ → List Call
unfolding station_plan
plan opened x m n =
    if opened
    then Call.set_mode true ∷ Call.config_ap (ap_name m n) x.password ∷ station_plan opened x
    else Call.set_mode false ∷ station_plan opened x

-- After a success all calls of the plan were made, and after an error the first ones, in their
-- order.
abbrev pub Follows : WifiErr × List Call → List Call → Type 0
Follows (WifiErr.ok, calls) planned = calls ≡ planned
Follows (_, calls) planned = (rest : List Call) × (calls ++ rest ≡ planned)

then_call-Follows :
    (call : Call) (e : WifiErr) (r : WifiErr × List Call) (planned : List Call)
    → Follows r planned
    → Follows (then_call (call, e) r) (call ∷ planned)
unfolding then_call
then_call-Follows call WifiErr.ok (WifiErr.ok, calls) planned h = ap (λ t. call ∷ t) h
then_call-Follows call WifiErr.ok (WifiErr.no_mem, calls) planned (rest, h) =
    (rest, ap (λ t. call ∷ t) h)
then_call-Follows call WifiErr.ok (WifiErr.invalid_state, calls) planned (rest, h) =
    (rest, ap (λ t. call ∷ t) h)
then_call-Follows call WifiErr.ok (WifiErr.other, calls) planned (rest, h) =
    (rest, ap (λ t. call ∷ t) h)
then_call-Follows call WifiErr.no_mem r planned h = (planned, refl)
then_call-Follows call WifiErr.invalid_state r planned h = (planned, refl)
then_call-Follows call WifiErr.other r planned h = (planned, refl)

then_check-Follows :
    (e : WifiErr) (r : WifiErr × List Call) (planned : List Call)
    → Follows r planned
    → Follows (then_check e r) planned
unfolding then_check
then_check-Follows WifiErr.ok r planned h = h
then_check-Follows WifiErr.no_mem r planned h = (planned, refl)
then_check-Follows WifiErr.invalid_state r planned h = (planned, refl)
then_check-Follows WifiErr.other r planned h = (planned, refl)

allowed-short : (x : Secrets) → ap_allowed x ≡ true → length x.password ≤ 63
unfolding ap_allowed
allowed-short x h = ground arith

-- The texts of the access point pass through the status whole.
note_access-whole :
    (x : Secrets) (m n : ℕ) (s : WifiStatus)
    → ap_allowed x ≡ true
    → let t = note_access x m n s in
      (cut config_ssid_size t.ap_ssid ≡ ap_name m n)
      × (cut config_password_size t.ap_password ≡ x.password)
unfolding note_access ap_name hex_byte
note_access-whole x m n s h =
    let short : length x.password ≤ 63 = allowed-short x h in
    let once = take_short 64 x.password (omega arith) in
    rw h (refl, ap (λ t. take 63 t) once ∙ take_short 63 x.password short)

then_if-Follows :
    (b : Bool) (call : Call) (e : WifiErr) (r : WifiErr × List Call) (planned : List Call)
    → Follows r planned
    → Follows (if b then then_call (call, e) r else r) (if b then call ∷ planned else planned)
then_if-Follows true call e r planned h = then_call-Follows call e r planned h
then_if-Follows false call e r planned h = h

access_eq :
    (b : Bool) (name text password secret : List ℕ) (rest : List Call)
    → (b ≡ true → (name ≡ text) × (password ≡ secret))
    → Call.set_mode b ∷ (if b then Call.config_ap name password ∷ rest else rest) ≡ (
        if b
        then Call.set_mode true ∷ Call.config_ap text secret ∷ rest
        else Call.set_mode false ∷ rest)
access_eq true name text password secret rest h =
    let (p, q) = h refl in
    ap (λ t. Call.set_mode true ∷ Call.config_ap t password ∷ rest) p
    ∙ ap (λ t. Call.set_mode true ∷ Call.config_ap text t ∷ rest) q
access_eq false name text password secret rest h = refl

start_driver-Follows :
    (x : Secrets) (d : DriverResults) (m n : ℕ) (s : WifiStatus)
    → Follows (start_driver x d (note_access x m n s)) (plan (ap_allowed x) x m n)
unfolding start_driver plan station_plan
start_driver-Follows x d m n s =
    let t = note_access x m n s in
    let last =
      then_call-Follows Call.start d.start_result _ _ (
        then_call-Follows (Call.set_ps (not (ap_allowed x))) d.ps_result (WifiErr.ok, []) []
          refl) in
    let station =
      then_if-Follows (ltb 0 (length x.station_ssid))
        (Call.config_sta (take 31 x.station_ssid) (take 63 x.station_password)) d.sta_result _ _
        last in
    let access =
      then_if-Follows (ap_allowed x)
        (Call.config_ap (cut config_ssid_size t.ap_ssid) (cut config_password_size t.ap_password))
        d.ap_result _ _ station in
    subst (Follows (start_driver x d t))
      (access_eq (ap_allowed x) _ _ _ _ (station_plan (ap_allowed x) x) (note_access-whole x m n s))
      (then_call-Follows (Call.set_mode (ap_allowed x)) d.mode_result _ _ access)

-- Where the address can be read, a start that succeeds has made exactly the calls of the plan, and one
-- that fails the first of them: an access point is configured only where it is enabled and its
-- password has 12 to 63 characters, and then with this whole password and the whole name.
pub wifi_service_start-Follows :
    (x : Secrets) (d : DriverResults) (s : WifiStatus) (m n : ℕ)
    → d.mac ≡ some (m, n)
    → Follows (wifi_service_start x d s).0 (plan (may_open x) x m n)
unfolding wifi_service_start may_open ap_allowed
wifi_service_start-Follows x d s m n e = rw e (
    then_check-Follows d.netif_init _ _ (
      then_check-Follows (loop_result d.event_loop) _ _ (
        then_check-Follows (netif_result x d) _ _ (
          then_check-Follows d.hostname _ _ (
            then_check-Follows d.wifi_init _ _ (
              then_check-Follows d.wifi_handler _ _
                (then_check-Follows d.ip_handler _ _ (start_driver-Follows x d m n s))))))))

-- The name of a network may have 32 bytes, and the array of the driver has room for them, but the
-- station is given the first 31.
pub station_plan-cut :
    (opened : Bool) (x : Secrets)
    → length x.station_ssid ≡ 32
    → (rest : List Call) × (name : List ℕ) × (password : List ℕ) × (station_plan opened x
        ≡ Call.config_sta name password ∷ rest)
      × (length name ≡ 31)
unfolding station_plan
station_plan-cut opened x h =
    let b : ltb 0 (length x.station_ssid) ≡ true = ground arith in
    rw b (_, _, _, refl, omega (arith, length-take 31 x.station_ssid))
