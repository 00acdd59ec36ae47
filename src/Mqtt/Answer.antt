-- ===== src/Mqtt/Answer.antt =====
-- protocols/mqtt_protocol.cc: which messages answer the hello of `OpenAudioChannel`.
use xiaozhi_pc.Base.{
  inl, inr, ℕ, ◌≡◌, refl, ◌∙◌, ap, Bool, true, false, not, ◌&&◌, ◌||◌, Option, none, some, List, [],
  ◌∷◌, ◌++◌, arith, ltb, length, Option-cases,
}
use xiaozhi_pc.Base.Text.{Bytes, codes, text_eq}
use xiaozhi_pc.Mqtt.Hex.{decode_hex_string}
use xiaozhi_pc.Mqtt.Hello.{
  Json, Server, Parsed, null_pointer, refused, responded, parse_server_hello, text_of,
  udp_transport, take_udp,
}
use xiaozhi_pc.Mqtt.Client.{Client}
use xiaozhi_pc.Mqtt.Opening.{on_mqtt_message, on_mqtt_messages}

abbrev is_some {ℓ} : {A : Type ℓ} → Option A → Bool
is_some none = false
is_some (some x) = true

-- Sixteen bytes or more, with the NUL behind them.
abbrev pub is_key : Option Bytes → Bool
is_key none = false
is_key (some key) = not (ltb (length (decode_hex_string key ++ (0 ∷ []))) 16)

abbrev pub has_udp_members : (j : Json) → j.Value → Bool
has_udp_members j udp =
    is_some (text_of j udp (codes "server"))
    && is_some (j.item udp (codes "port"))
    && is_key (text_of j udp (codes "key"))
    && is_some (text_of j udp (codes "nonce"))

-- No session id, or one that is a text.
abbrev pub has_good_session : (j : Json) → j.Value → Bool
has_good_session j root = elim (j.item root (codes "session_id")) [
  | none ↦ true
  | some v ↦ is_some (j.valuestring v)
]

-- A hello of the server: UDP transport, a session id that is a text if there is one, and all
-- of the members of `udp`.
abbrev pub is_hello : (j : Json) → j.Value → Bool
is_hello j root = elim (udp_transport j root) [
  | none ↦ false
  | some udp ↦
      udp
      && has_good_session j root
      && elim (j.item root (codes "udp")) [ none ↦ false | some v ↦ has_udp_members j v ]
]

abbrev pub is_answer : (j : Json) → Bytes → Bool
is_answer j payload = elim (j.parse payload) [
  | none ↦ false
  | some root ↦ elim (text_of j root (codes "type")) [
    | none ↦ false
    | some type ↦ text_eq type (codes "hello") && is_hello j root
  ]
]

-- One of the messages is an answer.
abbrev pub answered : (j : Json) → List (ℕ × Bytes) → Bool
answered j [] = false
answered j ((now, payload) ∷ ps) = is_answer j payload || answered j ps

-- Whether the flag is set by what came of a hello.
abbrev flag_of : Bool → Parsed → Bool
flag_of b null_pointer = b
flag_of b (refused s) = s.hello_responsed
flag_of b (responded s) = s.hello_responsed

take_udp_flag :
    (j : Json) (udp : j.Value) (b : Bool) (s : Server)
    → s.hello_responsed ≡ b
    → flag_of b
        (elim (take_udp j udp s) as (λ _. Parsed) [ none ↦ null_pointer | some t ↦ responded t ])
      ≡ (b || has_udp_members j udp)
take_udp_flag j udp b s e = ground arith

parse_flag :
    (j : Json) (root : j.Value) (s : Server)
    → flag_of s.hello_responsed (parse_server_hello j root s)
      ≡ (s.hello_responsed || is_hello j root)
unfolding parse_server_hello
parse_flag j root s = ground arith

message_flag :
    (j : Json) (now : ℕ) (payload : Bytes) (c : Client)
    → (on_mqtt_message j now payload c).server.hello_responsed
      ≡ (c.server.hello_responsed || is_answer j payload)
unfolding on_mqtt_message
message_flag j now payload c = elim (Option-cases (j.parse payload)) [
  | inl e ↦ ground (arith, e)
  | inr (root, e) ↦ ground (arith, e, parse_flag j root c.server)
]

or_assoc : (x y z : Bool) → ((x || y) || z) ≡ (x || (y || z))
or_assoc true y z = refl
or_assoc false y z = refl

-- After messages the flag is set when it was before, or one of them is an answer.
pub messages_flag :
    (j : Json) (ps : List (ℕ × Bytes)) (c : Client)
    → (on_mqtt_messages j ps c).server.hello_responsed ≡ (c.server.hello_responsed || answered j ps)
unfolding on_mqtt_messages
messages_flag j [] c = ground arith
messages_flag j ((now, payload) ∷ ps) c =
    messages_flag j ps (on_mqtt_message j now payload c)
    ∙ ap (λ b. b || answered j ps) (message_flag j now payload c)
    ∙ or_assoc c.server.hello_responsed (is_answer j payload) (answered j ps)
