-- ===== src/PahoMqtt.antt =====
-- porting/impl/paho_mqtt.cc and interface/mqtt.h: the adapter to the Paho library. What the library is
-- told and which callbacks are called are traces, the latest first. What a call of the library
-- returns is an argument, and what it reports is an event.
pub mod Runs
pub mod Reopening
use xiaozhi_pc.Base.{ℕ, ◌+◌, Bool, true, false, List, [], ◌∷◌, ◌++◌, if◌then◌else◌, ◌==◌}
use xiaozhi_pc.Base.Text.{Bytes, codes}
use xiaozhi_pc.Base.Int.{ℤ, to_string}

pub data Call : Type 0 where
  destroy_client : Call
  -- the address and the client's name
  create_client : Bytes → Bytes → Call
  set_callbacks : Call
  -- user, password, seconds
  start_connect : Bytes → Bytes → ℕ → Call
  -- topic, payload, quality, and the context that the answer comes with
  send_message : Bytes → Bytes → ℕ → ℕ → Call
  start_disconnect : Call
  start_subscribe : Bytes → ℕ → Call
  start_unsubscribe : Bytes → Call

pub data Callback : Type 0 where
  on_connected on_disconnected : Callback
  on_message : Bytes → Bytes → Callback

-- `SendContext` on the heap, with its address.
pub record SendContext : Type 0 where
  pub address : ℕ
  pub payload : Bytes

pub record PahoMqtt : Type 0 where
  -- whether `cli_` is not null
  pub has_client : Bool
  pub username : Bytes
  pub password : Bytes
  pub keep_alive_seconds : ℕ
  pub connected : Bool
  -- which callbacks are set
  pub has_on_connected : Bool
  pub has_on_disconnected : Bool
  pub has_on_message : Bool
  -- the contexts that are allocated, and the address of the next one
  pub contexts : List SendContext
  pub next_address : ℕ
  pub calls : List Call
  pub callbacks : List Callback

abbrev pub tell : Call → PahoMqtt → PahoMqtt
tell c p = record p { calls = c ∷ p.calls }

abbrev pub call_back : Bool → Callback → PahoMqtt → PahoMqtt
call_back is_set c p = if is_set then record p { callbacks = c ∷ p.callbacks } else p

-- `Connect()`, with what `MQTTAsync_connect` returns
unfoldable pub reconnect : Bool → PahoMqtt → Bool × PahoMqtt
reconnect ok p = (ok, tell (start_connect p.username p.password p.keep_alive_seconds) p)

-- A new adapter.
abbrev pub created : PahoMqtt
created = record {
  has_client = false;
  username = [];
  password = [];
  keep_alive_seconds = 60;
  connected = false;
  has_on_connected = false;
  has_on_disconnected = false;
  has_on_message = false;
  contexts = [];
  next_address = 0;
  calls = [];
  callbacks = [];
}

-- `SetKeepAlive`, `OnConnected`, `OnDisconnected` and `OnMessage`
unfoldable pub set_keep_alive : ℕ → PahoMqtt → PahoMqtt
set_keep_alive seconds p = record p { keep_alive_seconds = seconds }

unfoldable pub set_on_connected : PahoMqtt → PahoMqtt
set_on_connected p = record p { has_on_connected = true }

unfoldable pub set_on_disconnected : PahoMqtt → PahoMqtt
set_on_disconnected p = record p { has_on_disconnected = true }

unfoldable pub set_on_message : PahoMqtt → PahoMqtt
set_on_message p = record p { has_on_message = true }

-- What the library returns in `Connect` with its arguments.
pub record Connecting : Type 0 where
  pub created : Bool
  pub callbacks_set : Bool
  pub connecting : Bool

unfoldable pub destroy_old : PahoMqtt → PahoMqtt
destroy_old p = if p.has_client then record (tell destroy_client p) { has_client = false } else p

unfoldable pub connect : Connecting → Bytes → ℤ → Bytes → Bytes → Bytes → PahoMqtt → Bool × PahoMqtt
unfolding destroy_old reconnect to_string
connect o address port client_id user pass p =
    let named : PahoMqtt = record p { username = user; password = pass } in
    let uri = codes "mqtts://" ++ (address ++ (b':' ∷ to_string port)) in
    let told = tell (create_client uri client_id) (destroy_old named) in
    let made : PahoMqtt = tell set_callbacks (record told { has_client = true }) in
    if o.created
    then if o.callbacks_set then reconnect o.connecting made else (false, made)
    else (false, told)

-- `connlost`
unfoldable pub connlost : Bool → PahoMqtt → PahoMqtt
unfolding reconnect
connlost ok p = (reconnect ok p).1

-- `messageArrived`
unfoldable pub message_arrived : Bytes → Bytes → PahoMqtt → PahoMqtt
message_arrived topic payload p = call_back p.has_on_message (on_message topic payload) p

-- `onConnect` and `onDisconnect`
unfoldable pub connect_succeeds : PahoMqtt → PahoMqtt
connect_succeeds p = call_back p.has_on_connected on_connected (record p { connected = true })

unfoldable pub disconnect_succeeds : PahoMqtt → PahoMqtt
disconnect_succeeds p =
    call_back p.has_on_disconnected on_disconnected (record p { connected = false })

unfoldable pub publish : Bool → Bytes → Bytes → ℕ → PahoMqtt → Bool × PahoMqtt
publish ok topic payload qos p =
    let context : SendContext = record { address = p.next_address; payload = payload } in
    (
      ok,
      record p {
        contexts = context ∷ p.contexts;
        next_address = p.next_address + 1;
        calls = send_message topic payload qos p.next_address ∷ p.calls;
      },
    )

-- `delete ctx`
unfoldable pub release : ℕ → List SendContext → List SendContext
release a [] = []
release a (c ∷ cs) = let rest = release a cs in if c.address == a then rest else c ∷ rest

-- `onSend` and `onSendFailure`
unfoldable pub send_answered : ℕ → PahoMqtt → PahoMqtt
unfolding release
send_answered a p = record p { contexts = release a p.contexts }

unfoldable pub disconnect : Bool → PahoMqtt → PahoMqtt
disconnect ok p = tell start_disconnect p

unfoldable pub subscribe : Bool → Bytes → ℕ → PahoMqtt → Bool × PahoMqtt
subscribe ok topic qos p = (ok, tell (start_subscribe topic qos) p)

unfoldable pub unsubscribe : Bool → Bytes → PahoMqtt → Bool × PahoMqtt
unsubscribe ok topic p = (ok, tell (start_unsubscribe topic) p)

-- The destructor.
unfoldable pub destroy : PahoMqtt → PahoMqtt
destroy p = if p.has_client then tell destroy_client p else p

-- How `StartMqttClient` sets up a new adapter before it connects.
unfoldable pub set_up : PahoMqtt
unfolding set_keep_alive set_on_disconnected set_on_message
set_up = set_on_message (set_on_disconnected (set_keep_alive 90 created))
