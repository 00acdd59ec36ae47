-- ===== src/Ota/Configured.antt =====
-- ota.cc and protocols/mqtt_protocol.cc: `CheckVersion`, then `StartMqttClient`.
use xiaozhi_pc.Base.{
  ◌≡◌, refl, ap, sym, ◌∙◌, subst, ◌&&◌, Bool, true, false, inl, inr, Option, none, some, List, [],
  ◌∷◌, arith, Option-cases, Bool-cases, ◌>>=◌,
}
use mathlib.Core.Option
use xiaozhi_pc.Base.Text.{Bytes, codes, text_eq}
use xiaozhi_pc.Nvs.{NvRam, find, nvs_open, init_nv_ram}
use xiaozhi_pc.Nvs.Tables.{find_entry-get_section}
use xiaozhi_pc.Nvs.Access.{nvs_open-IsOpen}
use xiaozhi_pc.Settings.{c_str, open_settings, get_string}
use xiaozhi_pc.Settings.Values.{HasNoNul, strip_nul-HasNoNul, get_string-find}
use xiaozhi_pc.HttpClient.{is_some}
use xiaozhi_pc.Mqtt.Hello.{Json}
use xiaozhi_pc.Mqtt.Client.{Config, read_config}
use xiaozhi_pc.Ota.{
  Ota, Store, store_mqtt_members, store_mqtt, store_websocket, close_store, take_activation,
  take_firmware, server_time, take_answer,
}
use xiaozhi_pc.Ota.Update.{
  Keeps, StoreKeeps, store_mqtt-Keeps, store_websocket-Keeps, close_settings-Keeps,
}
use xiaozhi_pc.Ota.Provision.{HasCStrings, IsWriter, Holds, first_text, store_mqtt_members-Holds}

abbrev mqtt : Bytes
mqtt = codes "mqtt"

-- A value of the namespace `mqtt` of a store that is there after a step that may crash.
abbrev Stored : Bytes → Bytes → Option NvRam → Type 0
Stored k t none = Unit {0}
Stored k t (some r) = find r (some mqtt) k ≡ some t

open_settings-IsWriter : (r : NvRam) → IsWriter mqtt (open_settings mqtt true r)
unfolding open_settings c_str nvs_open
open_settings-IsWriter r = record { handle = refl; writes = refl; opened = nvs_open-IsOpen r mqtt }

find-open_settings :
    (b : Bool) (r : NvRam) (k : Bytes)
    → r.inited ≡ true
    → find (open_settings mqtt b r).1 (some mqtt) k ≡ find r (some mqtt) k
unfolding open_settings nvs_open init_nv_ram find c_str
find-open_settings b r k i = rw i (find_entry-get_section mqtt k mqtt r.nv_caches)

Stored-close_store :
    (k t : Bytes) (o : Option Store) → Holds mqtt k t o → Stored k t (close_store o)
Stored-close_store k t none h = tt
Stored-close_store k t (some (s, r)) h = (close_settings-Keeps s r).entries mqtt k t h

store_mqtt-Stored :
    (j : Json) (root v : j.Value) (r : NvRam) (k t : Bytes)
    → HasCStrings j
    → r.inited ≡ true
    → j.item root mqtt ≡ some v
    → find r (some mqtt) k ≡ none
    → first_text j (j.children v) k ≡ some t
    → Stored k t (store_mqtt j root r)
unfolding store_mqtt
store_mqtt-Stored j root v r k t nul i e free first =
    let q = open_settings mqtt true r in
    let whole : store_mqtt j root r ≡ close_store (store_mqtt_members j (j.children v) q) =
      rw (e, store_mqtt) in
    subst (Stored k t) (sym whole) (
      Stored-close_store k t (store_mqtt_members j (j.children v) q) (
        store_mqtt_members-Holds j mqtt k t (j.children v) q nul (open_settings-IsWriter r)
          (find-open_settings true r k i ∙ free) first))

bind_some {ℓ κ} :
    {A : Type ℓ} {B : Type κ} (o : Option A) (f : A → Option B) (b : B)
    → (o >>= f) ≡ some b
    → (a : A) × (o ≡ some a) × (f a ≡ some b)
bind_some none f b e = absurd (ground arith)
bind_some (some a) f b e = (a, refl, e)

abbrev with_flags : (j : Json) → j.Value → Ota → Ota
with_flags j root o = record o {
  has_mqtt_config = is_some (j.item root mqtt);
  has_websocket_config = is_some (j.item root (codes "websocket"));
  has_server_time = server_time j root;
}

-- The rest of the answer leaves it.
take_answer_steps :
    (j : Json) (root : j.Value) (o o' : Ota) (r r' : NvRam)
    → r.inited ≡ true
    → take_answer j root o r ≡ some (o', r')
    → (r1 : NvRam) × (store_mqtt j root r ≡ some r1) × Keeps r r1 × Keeps r1 r'
unfolding take_answer
take_answer_steps j root o o' r r' i e =
    let (o1, e1, h1) = bind_some (take_activation j root o) _ (o', r') e in
    let (r1, e2, h2) = bind_some (store_mqtt j root r) _ (o', r') h1 in
    let (r2, e3, h3) = bind_some (store_websocket j root r1) _ (o', r') h2 in
    let (o3, e4, h4) = bind_some (take_firmware j root (with_flags j root o1)) _ (o', r') h3 in
    let k1 : Keeps r r1 = subst (StoreKeeps r) e2 (store_mqtt-Keeps j root r i) in
    let k2 : Keeps r1 r2 =
      subst (StoreKeeps r1) e3 (store_websocket-Keeps j root r1 (k1.stays_inited i)) in
    (r1, e2, k1, subst (Keeps r1) (ap (λ p. p.1) (Option.some-injective (o3, r2) (o', r') h4)) k2)

first_text-HasNoNul :
    (j : Json) (members : List (Option Bytes × j.Value)) (k t : Bytes)
    → HasCStrings j
    → first_text j members k ≡ some t
    → HasNoNul t
unfolding first_text
first_text-HasNoNul j [] k t nul e = absurd (ground arith)
first_text-HasNoNul j ((none, v) ∷ members) k t nul e = first_text-HasNoNul j members k t nul e
first_text-HasNoNul j ((some name, v) ∷ members) k t nul e =
    elim (Bool-cases (j.is_string v && text_eq (c_str name) k)) [
      | inr no_text ↦ first_text-HasNoNul j members k t nul (rw no_text at e)
      | inl here ↦ elim (Option-cases (j.valuestring v)) [
        | inl n ↦ first_text-HasNoNul j members k t nul (rw (here, n) at e)
        | inr (text, n) ↦ elim (Bool-cases (text_eq text [])) [
          | inl empty ↦ first_text-HasNoNul j members k t nul (rw (here, n, empty) at e)
          | inr full ↦
              subst HasNoNul (Option.some-injective text t (rw (here, n, full) at e)) (nul v text n)
        ]
      ]
    ]

-- The members of the configuration, by the names they are stored under.
pub data Member : Type 0 where
  endpoint client_id username password publish_topic : Member

abbrev pub key_of : Member → Bytes
key_of endpoint = codes "endpoint"
key_of client_id = codes "client_id"
key_of username = codes "username"
key_of password = codes "password"
key_of publish_topic = codes "publish_topic"

abbrev pub member_of : Member → Config → Bytes
member_of endpoint c = c.endpoint
member_of client_id c = c.client_id
member_of username c = c.username
member_of password c = c.password
member_of publish_topic c = c.publish_topic

c_str-key_of : (m : Member) → c_str (key_of m) ≡ key_of m
unfolding c_str
c_str-key_of m = elim m as (λ m. c_str (key_of m) ≡ key_of m) [
  | endpoint ↦ refl
  | client_id ↦ refl
  | username ↦ refl
  | password ↦ refl
  | publish_topic ↦ refl
]

member_of-read_config :
    (m : Member) (r : NvRam)
    → let (s, r') = open_settings mqtt false r in
      member_of m (read_config r).0 ≡ get_string s r' (key_of m) []
unfolding read_config
member_of-read_config endpoint r = refl
member_of-read_config client_id r = refl
member_of-read_config username r = refl
member_of-read_config password r = refl
member_of-read_config publish_topic r = refl

read_config-find :
    (m : Member) (r : NvRam) (t : Bytes)
    → r.inited ≡ true
    → HasNoNul t
    → find r (some mqtt) (key_of m) ≡ some t
    → member_of m (read_config r).0 ≡ t
unfolding open_settings nvs_open c_str
read_config-find m r t i nul e =
    let (s, r') = open_settings mqtt false r in
    member_of-read_config m r
    ∙ get_string-find s r' mqtt (key_of m) [] refl
    ∙ rw (c_str-key_of m, find-open_settings false r (key_of m) i, e) (strip_nul-HasNoNul t nul)

-- A text that the `mqtt` object of the server's answer holds for the endpoint, the client's name,
-- the user, the password or the topic, the first one that is not empty, is what `StartMqttClient` reads after
-- `CheckVersion`, if the store had no value for it and the JSON library's texts end at their first NUL.
pub read_config-take_answer :
    (m : Member) (j : Json) (root v : j.Value) (o o' : Ota) (r r' : NvRam) (t : Bytes)
    → HasCStrings j
    → r.inited ≡ true
    → find r (some mqtt) (key_of m) ≡ none
    → j.item root mqtt ≡ some v
    → first_text j (j.children v) (key_of m) ≡ some t
    → take_answer j root o r ≡ some (o', r')
    → member_of m (read_config r').0 ≡ t
read_config-take_answer m j root v o o' r r' t nul i free e first done =
    let (r1, stored, k1, k2) = take_answer_steps j root o o' r r' i done in
    read_config-find m r' t (k2.stays_inited (k1.stays_inited i))
      (first_text-HasNoNul j (j.children v) (key_of m) t nul first)
      (k2.entries mqtt (key_of m) t (
        subst (Stored (key_of m) t) stored
          (store_mqtt-Stored j root v r (key_of m) t nul i e free first)))
