-- ===== src/Mqtt/Client.antt =====
-- protocols/mqtt_protocol.cc: the connection to the broker. The MQTT client is the interface of
-- interface/mqtt.h: whether it connects and what comes of a `Publish` are arguments.
use xiaozhi_pc.Base.{
  ℕ, suc, Bool, true, false, ◌&&◌, ◌||◌, Option, none, some, List, [], ◌∷◌, ◌++◌, leb, ◌==◌,
  if◌then◌else◌, take, drop,
}
use xiaozhi_pc.Base.Text.{Bytes, codes, text_eq}
use xiaozhi_pc.Base.Int.{ℤ, pos, atoi}
use xiaozhi_pc.Nvs.{NvRam, is_int32}
use xiaozhi_pc.Settings.{open_settings, get_string}
use xiaozhi_pc.HttpClient.{find}
use xiaozhi_pc.Mqtt.Hello.{Server}

-- What the protocol does outside, in order: texts published, errors reported, the callbacks of the
-- application, and the closing that a goodbye schedules.
pub data Event : Type 0 where
  published : Bytes → Bytes → Event
  network_error : Bytes → Event
  incoming_json : Bytes → Event
  close_scheduled : Event
  channel_opened : Event
  channel_closed : Event
  -- A null pointer was followed, or an exception left the function: nothing behind it counts.
  crashed : Event

-- `mqtt_`: null, a client that is connected or not, or an object that has been deleted.
pub data Pointer : Type 0 where
  null : Pointer
  live : Bool → Pointer
  dangling : Pointer

pub record Config : Type 0 where
  pub endpoint : Bytes
  pub client_id : Bytes
  pub username : Bytes
  pub password : Bytes
  pub publish_topic : Bytes

pub record Client : Type 0 where
  pub config : Config
  pub mqtt : Pointer
  pub server : Server
  pub error_occurred : Bool
  pub busy_sending_audio : Bool
  pub last_incoming_time : ℕ
  pub events : List Event

abbrev pub emit : Event → Client → Client
emit e c = record c { events = c.events ++ (e ∷ []) }

-- Protocol::SetError
unfoldable pub set_error : Bytes → Client → Client
set_error message c = emit (network_error message) (record c { error_occurred = true })

abbrev publish : Bool → Bytes → Client → Bool × Client
publish ok text c =
    if ok
    then (true, emit (published c.config.publish_topic text) c)
    else (false, set_error (codes "SERVER_ERROR") c)

-- `SendText`; the flag is the result of `Publish`.
unfoldable pub send_text : Bool → Bytes → Client → Bool × Client
unfolding set_error
send_text ok text c = if text_eq c.config.publish_topic [] then (false, c) else elim c.mqtt [
  | null ↦ (false, emit crashed c)
  | live _ ↦ publish ok text c
  | dangling ↦ (false, emit crashed c)
]

unfoldable pub read_config : NvRam → Config × NvRam
read_config r =
    let (s, r') = open_settings (codes "mqtt") false r in
    (
      record {
        endpoint = get_string s r' (codes "endpoint") [];
        client_id = get_string s r' (codes "client_id") [];
        username = get_string s r' (codes "username") [];
        password = get_string s r' (codes "password") [];
        publish_topic = get_string s r' (codes "publish_topic") [];
      },
      r',
    )

abbrev is_space : ℕ → Bool
is_space c = c == b' ' || leb 9 c && leb c 13

abbrev starts_digit : Bytes → Bool
starts_digit [] = false
starts_digit (c ∷ cs) = leb b'0' c && leb c b'9'

abbrev starts_number : Bytes → Bool
starts_number [] = false
starts_number (c ∷ cs) =
    let rest = starts_number cs in
    if is_space c
    then rest
    else if c == b'-' || c == b'+'
    then starts_digit cs
    else starts_digit (c ∷ cs)

-- `std::stoi`; `none` where it throws
unfoldable pub stoi : Bytes → Option ℤ
stoi s = if starts_number s && is_int32 (atoi s) then some (atoi s) else none

-- The address and the port of the broker.
unfoldable pub parse_endpoint : Bytes → Option (Bytes × ℤ)
unfolding stoi
parse_endpoint endpoint = elim (find (codes ":") endpoint) [
  | none ↦ some (endpoint, pos 8883)
  | some i ↦ elim (stoi (drop (suc i) endpoint)) [
    | none ↦ none
    | some port ↦ some (take i endpoint, port)
  ]
]

-- The library's `Connect`, with the address, the port and the configuration.
abbrev pub Connect : Type 0
Connect = Bytes → ℤ → Config → Bool

-- The client reports a connection that is made, or lost, later: until then `IsConnected` says false.
unfoldable pub connect_to : Connect → Client → Bool × Client
unfolding set_error parse_endpoint
connect_to connect c = elim (parse_endpoint c.config.endpoint) [
  | none ↦ (false, emit crashed c)
  | some (address, port) ↦
      if connect address port c.config
      then (true, c)
      else (false, set_error (codes "SERVER_NOT_CONNECTED") c)
]

-- Behind the deletion of an old client, at which `mqtt_` keeps its address.
unfoldable pub start_with : Connect → Bool → Pointer → NvRam → Client → Bool × Client × NvRam
unfolding set_error read_config connect_to
start_with connect report_error old r c =
    let (config, r') = read_config r in
    let c' = record c { config = config; mqtt = old } in
    if text_eq config.endpoint []
    then (false, if report_error then set_error (codes "SERVER_NOT_FOUND") c' else c', r')
    else let (ok, c'') = connect_to connect (record c' { mqtt = live false }) in (ok, c'', r')

-- `StartMqttClient`; the store is read through `Settings`.
unfoldable pub start_mqtt_client : Connect → Bool → NvRam → Client → Bool × Client × NvRam
unfolding start_with
start_mqtt_client connect report_error r c = elim c.mqtt [
  | null ↦ start_with connect report_error null r c
  | live _ ↦ start_with connect report_error dangling r c
  | dangling ↦ (false, emit crashed c, r)
]
