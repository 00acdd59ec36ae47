-- ===== src/Examples/Ota.antt =====
-- The OTA client.
use mathlib.Core.Option
use xiaozhi_pc.Settings.Values.{HasNoNul, HasNoNul-c_str}
use xiaozhi_pc.Base.{◌≡◌, refl, subst, Bool, true, false, none, some, [], ◌∷◌, if◌then◌else◌}
use xiaozhi_pc.Base.Text.{Bytes, codes, text_eq}
use xiaozhi_pc.Base.Dict.{lookup, emplace}
use xiaozhi_pc.Nvs.{
  NvRam, nvs_open, find, nvs_get_str, nvs_set_str, init_nv_ram, modify, nvs_commit, commit_nv_ram,
}
use xiaozhi_pc.Nvs.Line.{
  find_entry, get_section, at_section, print_file, print_section, print_entry,
}
use xiaozhi_pc.Settings.{
  get_string, set_string, open_settings, close_settings, written, read_value, c_str,
}
use xiaozhi_pc.Mqtt.Hello.{Json}
use xiaozhi_pc.Ota.{Ota, take_answer}
use xiaozhi_pc.Ota.Update.{take_answer_keeps_entries}
use xiaozhi_pc.Base.Int.{pos}
use xiaozhi_pc.Mqtt.Client.{read_config}
use xiaozhi_pc.Ota.Provision.{HasCStrings, first_text}
use xiaozhi_pc.Ota.Configured.{endpoint, read_config-take_answer}
use xiaozhi_pc.Examples.Data.{wifi, ssid, home, store}

-- An answer with one member, `mqtt`, in which the endpoint stands.
abbrev json : Json
json = record {
  Value = Bytes;
  parse = λ s. some s;
  item = λ v name. if text_eq name (codes "mqtt") then some v else none;
  valuestring = λ v. some v;
  valueint = λ v. pos 0;
  children = λ v. (some (codes "endpoint"), v) ∷ [];
  is_string = λ v. true;
  is_number = λ v. false;
}

abbrev ota : Bool → Ota
ota has_mqtt_config = record {
  check_version_url = [];
  activation_message = [];
  activation_code = [];
  activation_challenge = [];
  activation_timeout_ms = pos 30000;
  has_activation_code = false;
  has_activation_challenge = false;
  has_mqtt_config = has_mqtt_config;
  has_websocket_config = false;
  has_server_time = false;
  has_new_version = false;
  firmware_version = [];
  firmware_url = [];
  headers = [];
}

abbrev updated : NvRam
updated = record {
  inited = true;
  nv_caches = (wifi, (ssid, home) ∷ []) ∷ (codes "mqtt", (codes "endpoint", codes "a:1") ∷ []) ∷ [];
  file = some (codes "wifi.ssid=my home=1.5\nmqtt.endpoint=a:1\n");
  writable = true;
}

answer_stored : take_answer json (codes "a:1") (ota false) store ≡ some (ota true, updated)
unfolding take_answer text_eq open_settings nvs_open init_nv_ram c_str get_section emplace
    get_string find find_entry lookup nvs_get_str read_value set_string written nvs_set_str modify
    at_section close_settings nvs_commit commit_nv_ram print_file print_section print_entry
answer_stored = refl

ssid_stored : find store (some wifi) ssid ≡ some home
unfolding find find_entry lookup text_eq
ssid_stored = refl

take_answer_keeps_entries_example : find updated (some wifi) ssid ≡ some home
take_answer_keeps_entries_example =
    take_answer_keeps_entries json (codes "a:1") (ota false) (ota true) store updated wifi ssid home
      refl answer_stored ssid_stored

-- The same with texts that end at their first NUL.
abbrev c_json : Json
c_json = record json { valuestring = λ v. some (c_str v) }

c_json-HasCStrings : HasCStrings c_json
c_json-HasCStrings v t e = subst HasNoNul (Option.some-injective (c_str v) t e) (HasNoNul-c_str v)

c_answer_stored : take_answer c_json (codes "a:1") (ota false) store ≡ some (ota true, updated)
unfolding take_answer text_eq open_settings nvs_open init_nv_ram c_str get_section emplace
    get_string find find_entry lookup nvs_get_str read_value set_string written nvs_set_str modify
    at_section close_settings nvs_commit commit_nv_ram print_file print_section print_entry
c_answer_stored = refl

no_endpoint : find store (some (codes "mqtt")) (codes "endpoint") ≡ none
unfolding find find_entry lookup text_eq
no_endpoint = refl

first_endpoint :
    first_text c_json (c_json.children (codes "a:1")) (codes "endpoint") ≡ some (codes "a:1")
unfolding first_text c_str text_eq
first_endpoint = refl

read_config-take_answer_example : (read_config updated).0.endpoint ≡ codes "a:1"
unfolding text_eq
read_config-take_answer_example =
    read_config-take_answer endpoint c_json (codes "a:1") (codes "a:1") (ota false) (ota true) store
      updated (codes "a:1") c_json-HasCStrings refl no_endpoint refl first_endpoint c_answer_stored
