-- ===== src/Mqtt/Hello.antt =====
-- protocols/mqtt_protocol.cc: `ParseServerHello`. The JSON library cJSON is a record of the calls
-- that are made of it.
use xiaozhi_pc.Base.{
  Bool, true, Option, none, some, List, [], ◌∷◌, ◌++◌, ltb, length, take, if◌then◌else◌, ◌>>=◌,
}
use xiaozhi_pc.Base.Text.{Bytes, codes, text_eq}
use xiaozhi_pc.Base.Int.{ℤ}
use xiaozhi_pc.Mqtt.Packet.{Channel}
use xiaozhi_pc.Mqtt.Hex.{decode_hex_string}

pub record Json : Type 1 where
  pub Value : Type 0
  -- `cJSON_Parse`
  pub parse : Bytes → Option Value
  -- `cJSON_GetObjectItem`
  pub item : Value → Bytes → Option Value
  -- `valuestring`, which is null for what is no string
  pub valuestring : Value → Option Bytes
  pub valueint : Value → ℤ
  -- `cJSON_ArrayForEach`: the members with their names, which are null in an array, and the tests of their types
  pub children : Value → List (Option Bytes × Value)
  pub is_string : Value → Bool
  pub is_number : Value → Bool

-- What `ParseServerHello` writes.
pub record Server : Type 0 where
  pub session_id : Bytes
  pub sample_rate : ℤ
  pub frame_duration : ℤ
  pub udp_server : Bytes
  pub udp_port : ℤ
  pub channel : Channel
  pub hello_responsed : Bool

-- How a call ends: it goes on to the end, it returns early, or it follows a null pointer.
pub data Parsed : Type 0 where
  null_pointer : Parsed
  refused : Server → Parsed
  responded : Server → Parsed

abbrev pub text_of : (j : Json) → j.Value → Bytes → Option Bytes
text_of j v name = do w ← j.item v name; j.valuestring w

-- An integer member, or what there was before.
abbrev pub int_of : (j : Json) → j.Value → Bytes → ℤ → ℤ
int_of j v name old = elim (j.item v name) [ none ↦ old | some w ↦ j.valueint w ]

-- `none` where `std::string` is given a null pointer
abbrev pub take_session_id : (j : Json) → j.Value → Server → Option Server
take_session_id j root s = elim (j.item root (codes "session_id")) [
  | none ↦ some s
  | some v ↦ elim (j.valuestring v) [ none ↦ none | some id ↦ some (record s { session_id = id }) ]
]

abbrev pub take_audio_params : (j : Json) → j.Value → Server → Server
take_audio_params j root s = elim (j.item root (codes "audio_params")) [
  | none ↦ s
  | some v ↦ record s {
    sample_rate = int_of j v (codes "sample_rate") s.sample_rate;
    frame_duration = int_of j v (codes "frame_duration") s.frame_duration;
  }
]

-- The key is the first sixteen bytes of the decoded text with its NUL; `none` where there are fewer.
abbrev pub set_key : Bytes → Bytes → Channel → Option Channel
set_key key nonce c =
    let decoded = decode_hex_string key ++ (0 ∷ []) in
    if ltb (length decoded) 16
    then none
    else some (record c {
      aes_key = take 16 decoded;
      aes_nonce = decode_hex_string nonce;
      local_sequence = 0;
      remote_sequence = 0;
    })

abbrev pub take_udp : (j : Json) → j.Value → Server → Option Server
take_udp j udp s = text_of j udp (codes "server") >>= λ server.
    j.item udp (codes "port") >>= λ port. text_of j udp (codes "key") >>= λ key.
    text_of j udp (codes "nonce") >>= λ nonce. set_key key nonce s.channel >>= λ channel.
    some (record s {
      udp_server = server;
      udp_port = j.valueint port;
      channel = channel;
      hello_responsed = true;
    })

abbrev pub take_channel : (j : Json) → j.Value → Server → Parsed
take_channel j root s = elim (j.item root (codes "udp")) [
  | none ↦ refused s
  | some udp ↦ elim (take_udp j udp s) [ none ↦ null_pointer | some s' ↦ responded s' ]
]

abbrev pub udp_transport : (j : Json) → j.Value → Option Bool
udp_transport j root = do
  transport ← text_of j root (codes "transport")
  some (text_eq transport (codes "udp"))

unfoldable pub parse_server_hello : (j : Json) → j.Value → Server → Parsed
parse_server_hello j root s = elim (udp_transport j root) [
  | none ↦ null_pointer
  | some udp ↦
      if udp
      then elim (take_session_id j root s) [
        | none ↦ null_pointer
        | some s' ↦ take_channel j root (take_audio_params j root s')
      ]
      else refused s
]
