-- ===== src/Examples/Network.antt =====
-- The protocol, the audio channel and the HTTP client.
use xiaozhi_pc.Base.{
  ℕ, ◌+◌, ◌≡◌, refl, true, false, not, if◌then◌else◌, ltb, Option, none, some, List, [], ◌∷◌, ◌++◌,
  arith, length,
}
use xiaozhi_pc.Base.Text.{Bytes, codes, text_eq}
use xiaozhi_pc.Base.Int.{pos, print_nat}
use xiaozhi_pc.Nvs.{nvs_open, find, nvs_get_str, init_nv_ram}
use xiaozhi_pc.Nvs.Line.{find_entry, get_section}
use xiaozhi_pc.Base.Dict.{lookup, emplace}
use xiaozhi_pc.Settings.{get_string, open_settings, read_value, c_str}
use xiaozhi_pc.Application.State.{AudioStreamPacket, realtime}
use xiaozhi_pc.Protocol.{
  wake_word_detected, abort_message, wake_word_message, start_message, stop_message,
  iot_states_message, is_timeout,
}
use xiaozhi_pc.Protocol.Messages.{messages_are_objects, typed, string, raw, reason, mode_name}
use xiaozhi_pc.Mqtt.Hex.{decode_hex_string, print_hex, decode_hex_string-print_hex}
use xiaozhi_pc.Mqtt.Packet.{
  Cipher, Channel, send_audio, header, on_message, datagram, delivered, ignored,
}
use xiaozhi_pc.Mqtt.Delivery.{IsCounterMode, on_message-send_audio, on_message_again}
use xiaozhi_pc.Mqtt.Stream.{send_all, on_messages-send_all}
use xiaozhi_pc.Mqtt.Delivery.{on_messages}
use xiaozhi_pc.Base.Sublist.{Sublist, none_left, left_out, kept}
use xiaozhi_pc.Base.{map}
use xiaozhi_pc.Mqtt.Hello.{Json, Server}
use xiaozhi_pc.Mqtt.Client.{
  Client, Connect, Event, Config, live, crashed, channel_closed, parse_endpoint, start_mqtt_client,
}
use xiaozhi_pc.Mqtt.Answer.{answered}
use xiaozhi_pc.Mqtt.Opening.{
  on_mqtt_message, on_mqtt_messages, await_hello, request_channel, open_audio_channel,
  close_audio_channel, is_audio_channel_opened,
}
use xiaozhi_pc.Mqtt.Session.{
  is_sent, await_hello_answered, close_audio_channel_closes, parse_endpoint_port, reconnect_dangles,
}
use xiaozhi_pc.HttpClient.{parse_url}
use xiaozhi_pc.HttpClient.Parts.{with_protocol, parse_url_path}
use xiaozhi_pc.PahoMqtt.Runs.{apply_all, last_report}
use xiaozhi_pc.PahoMqtt.Reopening.{over_connection, over_another, open_audio_channel-last_report}
use xiaozhi_pc.Mqtt.Channel.{on_datagrams, latest, is_audio_channel_opened-on_datagrams}
use xiaozhi_pc.Examples.Devices.{paho, events}
use xiaozhi_pc.Base.{◌&&◌, Bool}
use xiaozhi_pc.Examples.Data.{store}
use xiaozhi_pc.Base.Text.{lacks-Lacks}

-- A cipher that leaves the data as they are.
abbrev plain : Cipher
plain key block s = some s

plain-IsCounterMode : IsCounterMode plain
plain-IsCounterMode = record {
  apply = λ key block s. s;
  crypt-apply = λ key block s. refl;
  crypt-crypt = λ key block s. refl;
  length-apply = λ key block s. refl;
}

abbrev channel : Channel
channel = record {
  has_udp = true;
  aes_key = [];
  aes_nonce = 1 ∷ 0 ∷ 0 ∷ 0 ∷ 9 ∷ 8 ∷ 7 ∷ 6 ∷ 0 ∷ 0 ∷ 0 ∷ 0 ∷ 0 ∷ 0 ∷ 0 ∷ 0 ∷ [];
  local_sequence = 4;
  remote_sequence = 3;
}

abbrev packet : AudioStreamPacket
packet = record { timestamp = 300; payload = codes "a frame of twenty byt" }

on_message-send_audio_example :
    (d : Bytes) × (send_audio plain packet channel
      ≡ (datagram d, record channel { local_sequence = 5 }))
    × (on_message 32 plain d channel ≡ (
        if ltb (16 + length packet.payload) 32
        then (ignored, channel)
        else (delivered packet, record channel { remote_sequence = 5 })))
on_message-send_audio_example =
    on_message-send_audio plain plain-IsCounterMode 32 packet channel channel refl refl refl refl
      refl (omega arith) (omega arith)

abbrev message : Bytes
message = 1 ∷ 0 ∷ 0 ∷ 1 ∷ 9 ∷ 8 ∷ 7 ∷ 6 ∷ 0 ∷ 0 ∷ 0 ∷ 2 ∷ 0 ∷ 0 ∷ 0 ∷ 6 ∷ codes "a frame of bytes"

abbrev received : AudioStreamPacket
received = record { timestamp = 2; payload = codes "a frame of bytes" }

message_delivered : (on_message 32 plain message channel).0 ≡ delivered received
unfolding on_message
message_delivered = refl

on_message_again_test :
    on_message 32 plain message (on_message 32 plain message channel).1
    ≡ (delivered received, (on_message 32 plain message channel).1)
on_message_again_test = on_message_again 32 plain message channel received message_delivered

decode_hex_string-print_hex_test :
    decode_hex_string (print_hex true (255 ∷ 16 ∷ [])) ≡ 255 ∷ 16 ∷ []
decode_hex_string-print_hex_test =
    decode_hex_string-print_hex true (255 ∷ 16 ∷ []) (omega arith, (omega arith, tt))

-- A JSON library with two texts: the server's hello and anything else. A value is its own text.
abbrev hello_text : Bytes
hello_text = codes "hello"

abbrev json_item : Bytes → Bytes → Option Bytes
json_item v name =
    if text_eq name (codes "type")
    then some v
    else if text_eq name (codes "transport")
    then some (codes "udp")
    else if text_eq name (codes "session_id")
    then none
    else if text_eq name (codes "audio_params")
    then none
    else some (codes "00112233445566778899AABBCCDDEEFF")

abbrev pub json : Json
json = record {
  Value = Bytes;
  parse = λ s. some s;
  item = json_item;
  valuestring = λ v. some v;
  valueint = λ v. pos 8883;
  children = λ v. [];
  is_string = λ v. true;
  is_number = λ v. false;
}

abbrev server : Server
server = record {
  session_id = codes "s1";
  sample_rate = pos 24000;
  frame_duration = pos 60;
  udp_server = [];
  udp_port = pos 0;
  channel = record channel { has_udp = false };
  hello_responsed = false;
}

abbrev config : Config
config = record {
  endpoint = [];
  client_id = [];
  username = [];
  password = [];
  publish_topic = codes "t";
}

abbrev pub client : Client
client = record {
  config = config;
  mqtt = live true;
  server = server;
  error_occurred = false;
  busy_sending_audio = false;
  last_incoming_time = 0;
  events = [];
}

abbrev arrivals : List (ℕ × Bytes)
arrivals = (1, codes "other") ∷ (2, hello_text) ∷ (3, codes "goodbye") ∷ []

abbrev opened_client : Bool × Client
opened_client = request_channel json true arrivals client

arrivals_answer : (is_sent true client && answered json arrivals) ≡ true
unfolding text_eq decode_hex_string
arrivals_answer = refl

hello_accepted :
    (on_mqtt_message json 2 hello_text
      (on_mqtt_messages json ((1, codes "other") ∷ []) client)).server.hello_responsed
    ≡ true
unfolding on_mqtt_messages on_mqtt_message text_eq decode_hex_string
hello_accepted = refl

await_hello_answered_test : (await_hello json arrivals client).0 ≡ true
await_hello_answered_test =
    await_hello_answered json ((1, codes "other") ∷ []) ((3, codes "goodbye") ∷ []) 2 hello_text
      client hello_accepted

close_audio_channel_closes_test :
    (is_audio_channel_opened 9 (close_audio_channel false client) ≡ false)
    × ((es : List Event) × ((close_audio_channel false client).events
          ≡ es ++ (channel_closed ∷ [])))
close_audio_channel_closes_test = close_audio_channel_closes false 9 client

parse_endpoint_port_test :
    parse_endpoint (codes "mqtt.example.org" ++ (b':' ∷ print_nat 1883))
    ≡ some (codes "mqtt.example.org", pos 1883)
parse_endpoint_port_test =
    parse_endpoint_port (codes "mqtt.example.org") 1883
      (lacks-Lacks b':' (codes "mqtt.example.org") refl) (omega arith)

abbrev pub connect : Connect
connect address port c = true

abbrev lost : Client
lost = record client { mqtt = live false }

no_endpoint : (start_mqtt_client connect true store lost).1.config.endpoint ≡ []
unfolding start_mqtt_client text_eq get_string open_settings nvs_open lookup find find_entry
    read_value nvs_get_str get_section emplace init_nv_ram c_str
no_endpoint = refl

reconnect_dangles_example :
    let (opened, c', r') = open_audio_channel json connect true arrivals store lost in
    (opened ≡ false)
    × (open_audio_channel json connect true arrivals r' c'
        ≡ (false, record c' { events = c'.events ++ (crashed ∷ []) }, r'))
reconnect_dangles_example = reconnect_dangles json connect true arrivals store lost refl no_endpoint

messages_are_objects_test :
    (abort_message (codes "s") wake_word_detected
      ≡ typed (codes "s") (codes "abort") (reason wake_word_detected))
    × (wake_word_message (codes "s") (codes "hi")
        ≡ typed
            (codes "s")
            (codes "listen")
            ((codes "state", string (codes "detect")) ∷ (codes "text", string (codes "hi")) ∷ []))
    × (start_message (codes "s") realtime
        ≡ typed (codes "s") (codes "listen") (
            (codes "state", string (codes "start"))
            ∷ (codes "mode", string (mode_name realtime))
            ∷ []))
    × (stop_message (codes "s")
        ≡ typed (codes "s") (codes "listen") ((codes "state", string (codes "stop")) ∷ []))
    × (iot_states_message (codes "s") (codes "[]")
        ≡ typed
            (codes "s")
            (codes "iot")
            ((codes "update", raw (codes "true")) ∷ (codes "states", raw (codes "[]")) ∷ []))
messages_are_objects_test =
    messages_are_objects (codes "s") (codes "hi") (codes "[]") wake_word_detected realtime

parse_url_path_test :
    parse_url (with_protocol (codes "https") (codes "api.tenclass.net" ++ (b'/' ∷ codes "ota/")))
    ≡ some (record {
      protocol = codes "https";
      host = codes "api.tenclass.net";
      path = b'/' ∷ codes "ota/";
    })
parse_url_path_test =
    parse_url_path (codes "https") (codes "api.tenclass.net") (codes "ota/")
      (lacks-Lacks b':' (codes "https") refl) (lacks-Lacks b'/' (codes "api.tenclass.net") refl)

-- Three packets, of which the second is lost.
abbrev packets : List AudioStreamPacket
packets = packet ∷ received ∷ packet ∷ []

abbrev datagrams : List Bytes
datagrams = send_all plain packets channel

two_arrive : (ds : List Bytes) × Sublist ds datagrams × (length ds ≡ 2)
unfolding send_all send_audio header
two_arrive = (_, kept (left_out (kept none_left)), refl)

on_messages-send_all_example :
    (qs : List AudioStreamPacket) × Sublist qs packets
    × ((on_messages 32 plain two_arrive.0 channel).0 ≡ map delivered qs)
on_messages-send_all_example =
    on_messages-send_all plain plain-IsCounterMode 32 packets channel channel two_arrive.0 refl refl
      refl refl refl
      (omega arith, omega arith, (omega arith, omega arith, (omega arith, omega arith, tt)))
      (omega arith) (omega arith) two_arrive.1

-- The connection was made and then lost.
abbrev lost_client : Client
lost_client = record client { mqtt = live (apply_all events paho).connected }

open_audio_channel-last_report_example :
    open_audio_channel json connect true arrivals store lost_client ≡ (
      if last_report false events
      then over_connection json true arrivals store lost_client
      else over_another json connect true arrivals store lost_client)
open_audio_channel-last_report_example =
    open_audio_channel-last_report events paho json connect true arrivals store lost_client refl

is_audio_channel_opened-on_datagrams_test :
    is_audio_channel_opened 200 (on_datagrams 32 plain ((100, message) ∷ (150, []) ∷ []) client) ≡ (
      client.server.channel.has_udp
      && not client.error_occurred
      && not (
          is_timeout 200 (
            latest 32 plain
              ((100, message) ∷ (150, []) ∷ [])
              client.server.channel
              client.last_incoming_time)))
is_audio_channel_opened-on_datagrams_test =
    is_audio_channel_opened-on_datagrams 32 plain 200 ((100, message) ∷ (150, []) ∷ []) client
