-- ===== src/Platform/Wifi.antt =====
-- The network of the probe: `event_handler`, `wifi_init_softap` and `wifi_init_sta` of
-- main/platform.c, as the calls of the SDK that they make. Messages to the log are left out.
use blackmagic_espidf.Base.{
  ℕ, zero, suc, ◌+◌, ◌*◌, ◌/◌, ◌%◌, Bool, Option, none, some, List, [], ◌∷◌, ◌++◌, get_or, ltb,
  if◌then◌else◌,
}
use blackmagic_espidf.Base.Text.{codes, hex_digit}

pub data DisconnectReason : Type 0 where
  basic_rate_not_support : DisconnectReason
  no_ap_found : DisconnectReason
  other_reason : ℕ → DisconnectReason

-- The events of the SDK that the handler has a case for.
pub data SystemEvent : Type 0 where
  sta_start : SystemEvent
  sta_connected : SystemEvent
  sta_got_ip : SystemEvent
  ap_staconnected : SystemEvent
  ap_stadisconnected : SystemEvent
  sta_disconnected : DisconnectReason → SystemEvent
  other_event : ℕ → SystemEvent

pub data WifiMode : Type 0 where
  mode_null : WifiMode
  mode_sta : WifiMode
  mode_ap : WifiMode

pub data WifiCall : Type 0 where
  wifi_init : WifiCall
  wifi_connect : WifiCall
  wifi_disconnect : WifiCall
  wifi_start : WifiCall
  set_mode : WifiMode → WifiCall
  set_config_ap : (ssid : List ℕ) → WifiCall
  set_config_sta : WifiCall
  set_protocol_sta : WifiCall
  set_protocol_ap : WifiCall
  set_hostname : WifiCall
  set_storage_ram : WifiCall
  dhcps_option : WifiCall
  efuse_mac_get_default : WifiCall
  base_mac_addr_set : WifiCall

-- A call whose result is dropped, and one in `ESP_ERROR_CHECK`, which stops the device on an error.
pub data WifiStep : Type 0 where
  unchecked : WifiCall → WifiStep
  error_check : WifiCall → WifiStep

pub record Radio : Type 0 where
  pub mode : WifiMode
  pub ssid : List ℕ

-- `%X` of a number below 16 ^ k.
unfoldable pub hex_text : (k : ℕ) → ℕ → List ℕ
hex_text zero n = []
hex_text (suc k) n =
    let front = hex_text k (n / 16) in
    if ltb n 16 then hex_digit n ∷ [] else front ++ hex_digit (n % 16) ∷ []

-- `(uint32_t)chipid`: the first four bytes of the address, the lowest first.
abbrev pub chipid : List ℕ → ℕ
chipid mac = get_or mac 0 0 + 256 * (get_or mac 1 0 + 256 * (get_or mac 2 0 + 256 * get_or mac 3 0))

unfoldable pub done : WifiCall → Radio → Radio
done (set_mode m) r = record r { mode = m }
done (set_config_ap name) r = record r { ssid = name }
done c r = r

-- `named` is the name that is configured where it is not to be made up (none where it is),
-- `hostname` whether one is configured, `no_base_mac` whether the address is read from the fuses.
pub record WifiConfig : Type 0 where
  pub named : Option (List ℕ)
  pub mac : List ℕ
  pub hostname : Bool
  pub no_base_mac : Bool

module _ (config : WifiConfig) where
  abbrev pub network_name : List ℕ
  unfolding hex_text
  network_name = elim config.named [
    | none ↦ codes "blackmagic_" ++ hex_text 8 (chipid config.mac)
    | some name ↦ name
  ]

  abbrev pub wifi_init_softap : List WifiStep
  wifi_init_softap =
      unchecked dhcps_option
      ∷ error_check wifi_init
      ∷ error_check (set_mode mode_ap)
      ∷ error_check (set_config_ap network_name)
      ∷ unchecked set_protocol_ap
      ∷ error_check wifi_start
      ∷ []

  abbrev wifi_init_sta : List WifiStep
  wifi_init_sta =
      error_check wifi_init
        ∷ (if config.no_base_mac
            then error_check efuse_mac_get_default ∷ error_check base_mac_addr_set ∷ []
            else [])
      ++ error_check (set_mode mode_sta)
        ∷ error_check set_storage_ram
        ∷ error_check set_config_sta
        ∷ error_check wifi_start
        ∷ []

  abbrev pub event_handler : SystemEvent → List WifiStep
  event_handler sta_start = unchecked wifi_connect ∷ unchecked set_protocol_sta ∷ []
  event_handler sta_connected = if config.hostname then unchecked set_hostname ∷ [] else []
  event_handler (sta_disconnected basic_rate_not_support) = []
  event_handler (sta_disconnected no_ap_found) = unchecked wifi_disconnect ∷ wifi_init_softap
  event_handler (sta_disconnected (other_reason n)) = unchecked wifi_connect ∷ []
  event_handler e = []

-- `is_ok` is whether a call of the SDK succeeds.
module _ (is_ok : WifiCall → Radio → Bool) where
  -- The device that goes on, or none where it stops.
  unfoldable pub perform : List WifiStep → Radio → Option Radio
  unfolding done
  perform [] r = some r
  perform (unchecked c ∷ ss) r =
      let rest = perform ss in if is_ok c r then rest (done c r) else rest r
  perform (error_check c ∷ ss) r =
      let rest = perform ss in if is_ok c r then rest (done c r) else none

  module _ (config : WifiConfig) where
    unfoldable pub on_events : List SystemEvent → Radio → Option Radio
    unfolding perform
    on_events [] r = some r
    on_events (e ∷ es) r = elim (perform (event_handler config e) r) [
      | none ↦ none
      | some r' ↦ on_events es r'
    ]
