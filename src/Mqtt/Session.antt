-- ===== src/Mqtt/Session.antt =====
-- protocols/mqtt_protocol.cc: what opening, closing and the server's messages do to the session.
use xiaozhi_pc.Base.{
  ℕ, suc, ◌≡◌, ◌<◌, ◌^◌, refl, Bool, true, false, not, none, some, List, [], ◌∷◌, ◌++◌, arith, ltb,
  if◌then◌else◌, length, drop, take-append_length,
}
use xiaozhi_pc.Base.Text.{Bytes, Lacks, text_eq_iff}
use xiaozhi_pc.Base.Int.{pos, print_nat, print_nat_head, to_string, atoi-to_string}
use xiaozhi_pc.Nvs.{NvRam, is_int32}
use xiaozhi_pc.HttpClient.{begins}
use xiaozhi_pc.HttpClient.Parts.{find-append}
use xiaozhi_pc.Mqtt.Hello.{Json, parse_server_hello}
use xiaozhi_pc.Mqtt.Client.{
  Client, Connect, Event, Pointer, live, dangling, channel_closed, crashed, set_error, send_text,
  parse_endpoint, stoi, start_with, start_mqtt_client, connect_to, read_config,
}
use xiaozhi_pc.Base.Text.{text_eq}
use xiaozhi_pc.Base.{◌&&◌}
use xiaozhi_pc.Mqtt.Opening.{
  on_mqtt_message, on_mqtt_messages, await_hello, open_audio_channel, close_audio_channel,
  is_audio_channel_opened,
}

message_keeps_response :
    (j : Json) (now : ℕ) (payload : Bytes) (c : Client)
    → c.server.hello_responsed ≡ true
    → (on_mqtt_message j now payload c).server.hello_responsed ≡ true
unfolding on_mqtt_message parse_server_hello
message_keeps_response j now payload c h = ground arith

messages_keep_response :
    (j : Json) (ps : List (ℕ × Bytes)) (c : Client)
    → c.server.hello_responsed ≡ true
    → (on_mqtt_messages j ps c).server.hello_responsed ≡ true
unfolding on_mqtt_messages
messages_keep_response j [] c h = h
messages_keep_response j ((now, payload) ∷ ps) c h =
    messages_keep_response j ps (on_mqtt_message j now payload c)
      (message_keeps_response j now payload c h)

messages_append :
    (j : Json) (ps qs : List (ℕ × Bytes)) (c : Client)
    → on_mqtt_messages j (ps ++ qs) c ≡ on_mqtt_messages j qs (on_mqtt_messages j ps c)
unfolding on_mqtt_messages
messages_append j [] qs c = refl
messages_append j ((now, payload) ∷ ps) qs c =
    messages_append j ps qs (on_mqtt_message j now payload c)

abbrev pub IsOpened : Client → Type 0
IsOpened c =
    (c.server.hello_responsed ≡ true)
    × (c.server.channel.has_udp ≡ true)
    × (c.error_occurred ≡ false)

-- The hello is sent: there is a topic, a client, and its `Publish` succeeds.
abbrev pub is_sent : Bool → Client → Bool
is_sent ok c = elim c.mqtt [ live _ ↦ ok && not (text_eq c.config.publish_topic []) | _ ↦ false ]

-- The wait for the server ends well when one arriving message is a hello that is accepted, whatever comes
-- before and after it.
pub await_hello_answered :
    (j : Json) (before after : List (ℕ × Bytes)) (now : ℕ) (payload : Bytes) (c : Client)
    → (on_mqtt_message j now payload (on_mqtt_messages j before c)).server.hello_responsed ≡ true
    → (await_hello j (before ++ ((now, payload) ∷ after)) c).0 ≡ true
unfolding await_hello on_mqtt_messages
await_hello_answered j before after now payload c h = ground (
  arith,
  messages_append j before ((now, payload) ∷ after) c,
  messages_keep_response j after (on_mqtt_message j now payload (on_mqtt_messages j before c)) h,
)

-- `CloseAudioChannel` leaves no open channel, also when the goodbye cannot be sent, and calls the
-- application back last of all.
pub close_audio_channel_closes :
    (ok : Bool) (now : ℕ) (c : Client)
    → (is_audio_channel_opened now (close_audio_channel ok c) ≡ false)
      × ((es : List Event) × ((close_audio_channel ok c).events ≡ es ++ (channel_closed ∷ [])))
unfolding close_audio_channel is_audio_channel_opened send_text
close_audio_channel_closes ok now c = (ground arith, (_, refl))

stoi-print_nat : (n : ℕ) → stoi (print_nat n) ≡ (if ltb n (2 ^ 31) then some (pos n) else none)
unfolding stoi is_int32 to_string
stoi-print_nat n =
    let (c, cs, e, h) = print_nat_head n in ground (arith, atoi-to_string (pos n), e, h)

drop-suc :
    (host : Bytes) (c : ℕ) (rest : Bytes) → drop (suc (length host)) (host ++ (c ∷ rest)) ≡ rest
drop-suc [] c rest = refl
drop-suc (d ∷ host) c rest = drop-suc host c rest

-- An endpoint `host:port` stands for that host and port, when there is no colon in the host and the
-- port is an `int`.
pub parse_endpoint_port :
    (host : Bytes) (port : ℕ)
    → Lacks b':' host
    → port < 2 ^ 31
    → parse_endpoint (host ++ (b':' ∷ print_nat port)) ≡ some (host, pos port)
unfolding parse_endpoint begins
parse_endpoint_port host port h small = ground (
  arith,
  find-append b':' [] host (b':' ∷ print_nat port) h refl,
  take-append_length host (b':' ∷ print_nat port),
  drop-suc host b':' (print_nat port),
  stoi-print_nat port,
)

connect_config : (connect : Connect) (c : Client) → (connect_to connect c).1.config ≡ c.config
unfolding connect_to set_error
connect_config connect c = ground arith

start_with_failed :
    (connect : Connect) (old : Pointer) (r : NvRam) (c : Client)
    → (start_with connect true old r c).1.config.endpoint ≡ []
    → ((start_with connect true old r c).0 ≡ false)
      × ((start_with connect true old r c).1.mqtt ≡ old)
unfolding start_with set_error
start_with_failed connect old r c e = ground (
  arith,
  text_eq_iff (read_config r).0.endpoint [],
  connect_config connect (record c { config = (read_config r).0; mqtt = live false }),
)

-- When the store holds no endpoint, an attempt to reconnect deletes the client and keeps its
-- address: the next attempt to open the audio channel follows it.
pub reconnect_dangles :
    (j : Json) (connect : Connect) (ok : Bool) (arrivals : List (ℕ × Bytes)) (r : NvRam)
    (c : Client)
    → c.mqtt ≡ live false
    → (start_mqtt_client connect true r c).1.config.endpoint ≡ []
    → let (opened, c', r') = open_audio_channel j connect ok arrivals r c in
      (opened ≡ false)
      × (open_audio_channel j connect ok arrivals r' c'
          ≡ (false, record c' { events = c'.events ++ (crashed ∷ []) }, r'))
unfolding open_audio_channel start_mqtt_client
reconnect_dangles j connect ok arrivals r c h e =
    let (f, d) = start_with_failed connect dangling r c (rw h at e) in rw h (ground arith)
