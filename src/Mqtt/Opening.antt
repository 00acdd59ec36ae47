-- ===== src/Mqtt/Opening.antt =====
-- protocols/mqtt_protocol.cc: the `OnMessage` callback, and the opening and closing of the audio
-- channel. While `OpenAudioChannel` waits, the client's thread calls the callback with the payloads
-- that arrive within ten seconds.
use xiaozhi_pc.Base.{
  ℕ, Bool, true, false, not, ◌&&◌, none, some, List, [], ◌∷◌, ◌++◌, if◌then◌else◌,
}
use xiaozhi_pc.Base.Text.{Bytes, codes, text_eq}
use xiaozhi_pc.Nvs.{NvRam}
use xiaozhi_pc.Protocol.{is_timeout}
use xiaozhi_pc.Mqtt.Hello.{Json, null_pointer, refused, responded, parse_server_hello}
use xiaozhi_pc.Mqtt.Client.{
  Client, emit, set_error, send_text, Connect, start_mqtt_client, incoming_json, close_scheduled,
  channel_opened, channel_closed, crashed, null, live, dangling,
}

abbrev hello : (j : Json) → j.Value → Client → Client
hello j root c = elim (parse_server_hello j root c.server) [
  | null_pointer ↦ emit crashed c
  | refused s ↦ record c { server = s }
  | responded s ↦ record c { server = s }
]

abbrev goodbye : (j : Json) → j.Value → Client → Client
goodbye j root c = elim (j.item root (codes "session_id")) [
  | none ↦ emit close_scheduled c
  | some v ↦ elim (j.valuestring v) [
    | none ↦ emit crashed c
    | some id ↦ if text_eq c.server.session_id id then emit close_scheduled c else c
  ]
]

abbrev by_type : (j : Json) → Bytes → j.Value → Bytes → Client → Client
by_type j payload root type c =
    if text_eq type (codes "hello")
    then hello j root c
    else if text_eq type (codes "goodbye")
    then goodbye j root c
    else emit (incoming_json payload) c

-- The callback given to `OnMessage`, at a time of the clock.
unfoldable pub on_mqtt_message : (j : Json) → ℕ → Bytes → Client → Client
unfolding parse_server_hello
on_mqtt_message j now payload c = elim (j.parse payload) [
  | none ↦ c
  | some root ↦ elim (j.item root (codes "type")) [
    | none ↦ c
    | some v ↦ elim (j.valuestring v) [
      | none ↦ emit crashed c
      | some type ↦ record (by_type j payload root type c) { last_incoming_time = now }
    ]
  ]
]

-- The payloads that arrive, each with its time.
unfoldable pub on_mqtt_messages : (j : Json) → List (ℕ × Bytes) → Client → Client
unfolding on_mqtt_message
on_mqtt_messages j [] c = c
on_mqtt_messages j ((now, payload) ∷ ps) c = on_mqtt_messages j ps (on_mqtt_message j now payload c)

abbrev pub hello_message : Bytes
hello_message =
    codes "{\"type\":\"hello\",\"version\": 3,\"transport\":\"udp\",\"audio_params\":{"
    ++ codes "\"format\":\"opus\", \"sample_rate\":16000, \"channels\":1, \"frame_duration\":60}}"

abbrev pub reset : Client → Client
reset c = record c {
  busy_sending_audio = false;
  error_occurred = false;
  server = record c.server { session_id = []; hello_responsed = false };
}

abbrev with_udp : Bool → Client → Client
with_udp b c = record c {
  server = record c.server { channel = record c.server.channel { has_udp = b } };
}

-- The part behind `SendText`.
unfoldable pub await_hello : (j : Json) → List (ℕ × Bytes) → Client → Bool × Client
unfolding on_mqtt_messages set_error
await_hello j arrivals c =
    let c' = on_mqtt_messages j arrivals c in
    if c'.server.hello_responsed
    then (true, emit channel_opened (with_udp true c'))
    else (false, set_error (codes "SERVER_TIMEOUT") c')

unfoldable pub request_channel : (j : Json) → Bool → List (ℕ × Bytes) → Client → Bool × Client
unfolding send_text await_hello
request_channel j ok arrivals c =
    let (sent, c') = send_text ok hello_message (reset c) in
    if sent then await_hello j arrivals c' else (false, c')

abbrev opened_channel : Bool × Client → NvRam → Bool × Client × NvRam
opened_channel (opened, c) r = (opened, c, r)

-- What is done when the client had to be started first.
abbrev after_start :
    (j : Json) → Bool → List (ℕ × Bytes) → Bool × Client × NvRam → Bool × Client × NvRam
after_start j ok arrivals (started, c, r) =
    if started then opened_channel (request_channel j ok arrivals c) r else (false, c, r)

-- `OpenAudioChannel`
unfoldable pub open_audio_channel :
    (j : Json) → Connect → Bool → List (ℕ × Bytes) → NvRam → Client → Bool × Client × NvRam
unfolding start_mqtt_client request_channel
open_audio_channel j connect ok arrivals r c = elim c.mqtt [
  | null ↦ after_start j ok arrivals (start_mqtt_client connect true r c)
  | live connected ↦
      if connected
      then opened_channel (request_channel j ok arrivals c) r
      else after_start j ok arrivals (start_mqtt_client connect true r c)
  | dangling ↦ (false, emit crashed c, r)
]

-- `CloseAudioChannel`
unfoldable pub close_audio_channel : Bool → Client → Client
unfolding send_text
close_audio_channel ok c =
    let message =
      codes "{\"session_id\":\"" ++ (c.server.session_id ++ codes "\",\"type\":\"goodbye\"}") in
    emit channel_closed (send_text ok message (with_udp false c)).1

unfoldable pub is_audio_channel_opened : ℕ → Client → Bool
unfolding is_timeout
is_audio_channel_opened now c =
    c.server.channel.has_udp && not c.error_occurred && not (is_timeout now c.last_incoming_time)
