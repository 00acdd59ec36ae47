-- ===== src/Examples/Devices.antt =====
-- The board and the adapter to the MQTT library.
use xiaozhi_pc.Base.{
  ℕ, ◌+◌, ◌*◌, ◌≤◌, ◌≡◌, refl, true, false, none, some, List, [], ◌∷◌, length, get_elem?,
}
use xiaozhi_pc.Base.Text.{codes, text_eq}
use xiaozhi_pc.Base.Dict.{lookup}
use xiaozhi_pc.Base.Int.{pos}
use xiaozhi_pc.Mqtt.Hex.{digit, decode_hex_string}
use xiaozhi_pc.Nvs.{find, init_nv_ram}
use xiaozhi_pc.Nvs.Line.{find_entry}
use xiaozhi_pc.Nvs.Tables.{IsTable}
use xiaozhi_pc.Nvs.Reboot.{IsStorable, restarted}
use xiaozhi_pc.Board.{generate_uuid, start_board, board_ns, uuid_key}
use xiaozhi_pc.Board.Uuid.{without_dashes, uuid_bytes, generate_uuid_text}
use xiaozhi_pc.Board.Restart.{start_board-restarted}
use xiaozhi_pc.PahoMqtt.{PahoMqtt, Connecting}
use xiaozhi_pc.PahoMqtt.Runs.{
  Event, connects, publishes, connection_lost, connected_reported, sent_reported,
}
use xiaozhi_pc.Examples.Data.{store, wifi-IsName, ssid-IsKey, home-IsValue}

abbrev engine : ℕ → ℕ
engine i = i * 1000003 + 77

abbrev other_engine : ℕ → ℕ
other_engine i = i

generate_uuid_text_example :
    (length (generate_uuid engine) ≡ 36)
    × (decode_hex_string (without_dashes (generate_uuid engine)) ≡ uuid_bytes engine)
    × (get_elem? (generate_uuid engine) 14 ≡ some b'4')
    × ((n : ℕ) × (8 ≤ n) × (n ≤ 11) × (get_elem? (generate_uuid engine) 19 ≡ some (digit false n)))
generate_uuid_text_example = generate_uuid_text engine

no_uuid : find (init_nv_ram store) (some board_ns) uuid_key ≡ none
unfolding find init_nv_ram find_entry lookup text_eq
no_uuid = refl

init-IsStorable : IsStorable (init_nv_ram store).nv_caches
unfolding init_nv_ram
init-IsStorable = (wifi-IsName, (ssid-IsKey, home-IsValue, tt), tt)

init-IsTable : IsTable (init_nv_ram store).nv_caches
unfolding init_nv_ram lookup
init-IsTable = (refl, (refl, tt), tt)

start_board-restarted_example :
    ((start_board engine store).0 ≡ generate_uuid engine)
    × ((start_board other_engine (restarted (start_board engine store).1)).0 ≡ generate_uuid engine)
start_board-restarted_example =
    start_board-restarted engine other_engine store refl no_uuid init-IsStorable init-IsTable

abbrev pub paho : PahoMqtt
paho = record {
  has_client = false;
  username = [];
  password = [];
  keep_alive_seconds = 90;
  connected = false;
  has_on_connected = false;
  has_on_disconnected = true;
  has_on_message = true;
  contexts = [];
  next_address = 1;
  calls = [];
  callbacks = [];
}

abbrev pub ok : Connecting
ok = record { created = true; callbacks_set = true; connecting = true }

abbrev pub events : List Event
events =
    connects ok (codes "mqtt.example.org") (pos 8883) (codes "id") (codes "user") (codes "secret")
    ∷ connected_reported
    ∷ publishes true (codes "topic") (codes "text") 0
    ∷ sent_reported 1
    ∷ connection_lost false
    ∷ []
