-- ===== src/Ota.antt =====
-- ota.cc: `CheckVersion`, which asks the server and stores its answer. The JSON library is the
-- record of `Mqtt.Hello`, and the HTTP library a function as in `HttpClient`. `none` stands for a
-- null pointer that is made a `std::string`.
pub mod Update
pub mod Provision
pub mod Configured
use xiaozhi_pc.Base.{
  ◌||◌, Bool, true, false, ◌&&◌, Option, none, some, List, [], ◌∷◌, ltb, if◌then◌else◌, length,
}
use mathlib.Core.Option
use xiaozhi_pc.Base.Text.{Bytes, codes, text_eq}
use xiaozhi_pc.Base.Dict.{Dict, insert}
use xiaozhi_pc.Base.Int.{ℤ, pos, negsuc}
use xiaozhi_pc.Base.{◌==◌}
use xiaozhi_pc.Nvs.{NvRam}
use xiaozhi_pc.Settings.{Settings, open_settings, close_settings, get_string, set_string, set_int}
use xiaozhi_pc.HttpClient.{HttpClient, Request, Response, set_header, open_url, get_body, is_some}
use xiaozhi_pc.Base.{◌>>=◌}
use xiaozhi_pc.Mqtt.Hello.{Json, int_of}

pub record Ota : Type 0 where
  pub check_version_url : Bytes
  pub activation_message : Bytes
  pub activation_code : Bytes
  pub activation_challenge : Bytes
  pub activation_timeout_ms : ℤ
  pub has_activation_code : Bool
  pub has_activation_challenge : Bool
  pub has_mqtt_config : Bool
  pub has_websocket_config : Bool
  pub has_server_time : Bool
  pub has_new_version : Bool
  pub firmware_version : Bytes
  pub firmware_url : Bytes
  pub headers : Dict Bytes

abbrev default_url : Bytes
default_url = codes "https://api.tenclass.net/xiaozhi/ota/"

-- The constructor, as far as it reads the settings.
unfoldable pub read_url : NvRam → Bytes × NvRam
read_url r =
    let (s, r') = open_settings (codes "wifi") false r in
    let url = get_string s r' (codes "ota_url") [] in
    (if text_eq url [] then default_url else url, close_settings s r')

-- `Ota::SetHeader`
unfoldable pub add_header : Bytes → Bytes → Ota → Ota
add_header key value o = record o { headers = insert key value o.headers }

abbrev set_headers : Dict Bytes → HttpClient → HttpClient
set_headers [] h = h
set_headers ((key, value) ∷ rest) h = set_headers rest (set_header key value h)

-- `SetupHttp`, with the address of the machine and the identifier of the board.
unfoldable pub setup_http : Bytes → Bytes → Ota → HttpClient
setup_http mac uuid o = set_header (codes "Content-Type") (codes "application/json") (
    set_header (codes "Client-Id") uuid (
      set_header (codes "Device-Id") mac
        (set_headers o.headers (record { headers = []; result = none; timeout_ms = 0 }))))

-- A member that is a text when it is there.
abbrev text_member : (j : Json) → j.Value → Bytes → Option (Option Bytes)
text_member j v name = elim (j.item v name) [
  | none ↦ some none
  | some w ↦ elim (j.valuestring w) [ none ↦ none | some t ↦ some (some t) ]
]

unfoldable pub take_activation : (j : Json) → j.Value → Ota → Option Ota
take_activation j root o =
    let o' = record o { has_activation_code = false; has_activation_challenge = false } in
    elim (j.item root (codes "activation")) [
      | none ↦ some o'
      | some v ↦ text_member j v (codes "message") >>= λ message.
          text_member j v (codes "code") >>= λ code.
          text_member j v (codes "challenge") >>= λ challenge. some (record o' {
            activation_message = Option.get_or message o.activation_message;
            activation_code = Option.get_or code o.activation_code;
            has_activation_code = is_some code;
            activation_challenge = Option.get_or challenge o.activation_challenge;
            has_activation_challenge = is_some challenge;
            activation_timeout_ms = int_of j v (codes "timeout_ms") o.activation_timeout_ms;
          })
    ]

abbrev pub Store : Type 0
Store = Settings × NvRam

-- A member of `mqtt`: a text that differs from the stored one is set.
unfoldable pub store_text : Bytes → Bytes → Store → Store
store_text name text (s, r) =
    if text_eq (get_string s r name []) text then (s, r) else set_string s r name text

-- `none` where a `std::string` is made of a null pointer
unfoldable pub store_mqtt_members :
    (j : Json) → List (Option Bytes × j.Value) → Store → Option Store
unfolding store_text
store_mqtt_members j [] q = some q
store_mqtt_members j ((none, v) ∷ members) q =
    if j.is_string v then none else store_mqtt_members j members q
store_mqtt_members j ((some name, v) ∷ members) q =
    if j.is_string v
    then elim (j.valuestring v) [
      | none ↦ none
      | some text ↦ store_mqtt_members j members (store_text name text q)
    ]
    else store_mqtt_members j members q

unfoldable pub store_websocket_members :
    (j : Json) → List (Option Bytes × j.Value) → Store → Option Store
store_websocket_members j [] q = some q
store_websocket_members j ((none, v) ∷ members) q =
    if j.is_string v || j.is_number v then none else store_websocket_members j members q
store_websocket_members j ((some name, v) ∷ members) (s, r) =
    if j.is_string v
    then elim (j.valuestring v) [
      | none ↦ none
      | some text ↦ store_websocket_members j members (set_string s r name text)
    ]
    else if j.is_number v
    then store_websocket_members j members (set_int s r name (j.valueint v))
    else store_websocket_members j members (s, r)

abbrev pub close_store : Option Store → Option NvRam
close_store none = none
close_store (some (s, r)) = some (close_settings s r)

-- The store after the `mqtt` member and after the `websocket` member of the answer.
unfoldable pub store_mqtt : (j : Json) → j.Value → NvRam → Option NvRam
unfolding store_mqtt_members
store_mqtt j root r = elim (j.item root (codes "mqtt")) [
  | none ↦ some r
  | some v ↦ close_store (store_mqtt_members j (j.children v) (open_settings (codes "mqtt") true r))
]

unfoldable pub store_websocket : (j : Json) → j.Value → NvRam → Option NvRam
unfolding store_websocket_members
store_websocket j root r = elim (j.item root (codes "websocket")) [
  | none ↦ some r
  | some v ↦
      close_store
        (store_websocket_members j (j.children v) (open_settings (codes "websocket") true r))
]

abbrev pub server_time : (j : Json) → j.Value → Bool
server_time j root = elim (j.item root (codes "server_time")) [
  | none ↦ false
  | some v ↦ is_some (j.item v (codes "timestamp"))
]

abbrev is_one : ℤ → Bool
is_one (pos n) = n == 1
is_one (negsuc n) = false

-- `IsNewVersionAvailable`
abbrev is_new_version_available : Bytes → Bool
is_new_version_available version = false

abbrev is_force : (j : Json) → j.Value → Bool
is_force j v = elim (j.item v (codes "force")) [ none ↦ false | some w ↦ is_one (j.valueint w) ]

abbrev new_version : (j : Json) → j.Value → Option Bytes → Option Bytes → Bool
new_version j v version url =
    if is_some version && is_some url
    then (if is_force j v then true else is_new_version_available (Option.get_or version []))
    else false

unfoldable pub take_firmware : (j : Json) → j.Value → Ota → Option Ota
take_firmware j root o = elim (j.item root (codes "firmware")) [
  | none ↦ some (record o { has_new_version = false })
  | some v ↦ text_member j v (codes "version") >>= λ version.
      text_member j v (codes "url") >>= λ url. some (record o {
        firmware_version = Option.get_or version o.firmware_version;
        firmware_url = Option.get_or url o.firmware_url;
        has_new_version = new_version j v version url;
      })
]

-- `CheckVersion` behind the parsing of the answer.
unfoldable pub take_answer : (j : Json) → j.Value → Ota → NvRam → Option (Ota × NvRam)
unfolding take_activation store_mqtt store_websocket take_firmware
take_answer j root o r = take_activation j root o >>= λ o'. store_mqtt j root r >>= λ r'.
    store_websocket j root r' >>= λ r''.
    take_firmware j root (record o' {
      has_mqtt_config = is_some (j.item root (codes "mqtt"));
      has_websocket_config = is_some (j.item root (codes "websocket"));
      has_server_time = server_time j root;
    })
    >>= λ last. some (last, r'')

abbrev with_flag : Option (Ota × NvRam) → Option (Bool × Ota × NvRam)
with_flag none = none
with_flag (some (o, r)) = some (true, o, r)

-- The part of `CheckVersion` behind the request.
unfoldable pub read_answer : (j : Json) → Bytes → Ota → NvRam → Option (Bool × Ota × NvRam)
unfolding take_answer
read_answer j body o r = elim (j.parse body) [
  | none ↦ some (false, o, r)
  | some root ↦ with_flag (take_answer j root o r)
]

-- `CheckVersion`, with the client of `SetupHttp` and the board's description of itself.
unfoldable pub check_version :
    (j : Json)
    → (Request → Option Response)
    → Bytes
    → HttpClient
    → Ota
    → NvRam
    → Option (Bool × Ota × NvRam)
unfolding read_answer
check_version j library board_json http o r =
    let method = if ltb 0 (length board_json) then codes "POST" else codes "GET" in
    let (ok, h) = open_url library method o.check_version_url board_json http in
    if ltb (length o.check_version_url) 10
    then some (false, o, r)
    else if ok
    then read_answer j (get_body h) o r
    else some (false, o, r)
