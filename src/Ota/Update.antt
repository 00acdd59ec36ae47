-- ===== src/Ota/Update.antt =====
-- ota.cc: what an answer of the server changes in the store.
use xiaozhi_pc.Base.{
  ◌||◌, ◌≡◌, refl, sym, ◌∙◌, subst, Bool, true, inl, inr, Option, none, some, List, [], ◌∷◌, arith,
  Option-cases, Bool-cases,
}
use xiaozhi_pc.Base.Text.{Bytes, codes, text_eq, text_eq_iff}
use xiaozhi_pc.Base.Int.{ℤ, to_string}
use xiaozhi_pc.Base.Dict.{lookup, emplace}
use xiaozhi_pc.Nvs.Line.{find_entry}
use xiaozhi_pc.Nvs.Tables.{lookup-emplace, lookup-at_section, find_entry-get_section}
use xiaozhi_pc.Nvs.{
  NvRam, Handle, Status, find, modify, nvs_set_str, nvs_set_i32, nvs_open, nvs_commit,
  commit_nv_ram, init_nv_ram,
}
use xiaozhi_pc.Settings.{
  Settings, c_str, open_settings, close_settings, get_string, set_string, set_int, written,
}
use xiaozhi_pc.Base.{◌>>=◌}
use xiaozhi_pc.Mqtt.Hello.{Json}
use xiaozhi_pc.Ota.{
  Ota, Store, store_text, store_mqtt_members, store_websocket_members, store_mqtt, store_websocket,
  close_store, take_answer, take_activation,
}

-- Every entry of the first store stands in the second with the same value, and a store that has
-- read its file stays so.
pub record Keeps (r r' : NvRam) : Type 0 where
  pub entries : (s k v : Bytes) → find r (some s) k ≡ some v → find r' (some s) k ≡ some v
  pub stays_inited : r.inited ≡ true → r'.inited ≡ true

Keeps-refl : (r : NvRam) → Keeps r r
Keeps-refl r = record { entries = λ s k v e. e; stays_inited = λ e. e }

Keeps-trans : {a b c : NvRam} → Keeps a b → Keeps b c → Keeps a c
Keeps-trans f g = record {
  entries = λ s k v e. g.entries s k v (f.entries s k v e);
  stays_inited = λ e. g.stays_inited (f.stays_inited e);
}

emplace_entries :
    (ns key value : Bytes) (r : NvRam) (s k v : Bytes)
    → find r (some s) k ≡ some v
    → find (modify (some ns) (emplace key value) r).1 (some s) k ≡ some v
unfolding modify find find_entry
emplace_entries ns key value r s k v e =
    rw (lookup-at_section s ns (emplace key value) r.nv_caches)
      (elim (Option-cases (lookup s r.nv_caches)) [
        | inl n ↦ ground arith
        | inr (sec, n) ↦ ground (arith, lookup-emplace k key value sec, text_eq_iff key k)
      ])

modify-emplace-Keeps :
    (h : Handle) (key value : Bytes) (r : NvRam) → Keeps r (modify h (emplace key value) r).1
unfolding modify
modify-emplace-Keeps none key value r = Keeps-refl r
modify-emplace-Keeps (some ns) key value r = record {
  entries = emplace_entries ns key value r;
  stays_inited = λ e. e;
}

written-Keeps :
    (s : Settings) (r : NvRam) (q : Status × NvRam) → Keeps r q.1 → Keeps r (written s r q).1
unfolding written
written-Keeps s r (st, r') h = elim (Bool-cases s.read_write) [
  | inl e ↦ rw e h
  | inr e ↦ rw e (Keeps-refl r)
]

set_string-Keeps : (s : Settings) (r : NvRam) (k v : Bytes) → Keeps r (set_string s r k v).1
unfolding set_string nvs_set_str
set_string-Keeps s r k v =
    written-Keeps s r (nvs_set_str s.nvs_handle (c_str k) (c_str v) r)
      (modify-emplace-Keeps s.nvs_handle (c_str k) (c_str v) r)

set_int-Keeps : (s : Settings) (r : NvRam) (k : Bytes) (i : ℤ) → Keeps r (set_int s r k i).1
unfolding set_int nvs_set_i32
set_int-Keeps s r k i =
    written-Keeps s r (nvs_set_i32 s.nvs_handle (c_str k) i r)
      (modify-emplace-Keeps s.nvs_handle (c_str k) (to_string i) r)

store_text-Keeps : (name text : Bytes) (q : Store) → Keeps q.1 (store_text name text q).1
unfolding store_text
store_text-Keeps name text (s, r) = elim (Bool-cases (text_eq (get_string s r name []) text)) [
  | inl e ↦ rw e (Keeps-refl r)
  | inr e ↦ rw e (set_string-Keeps s r name text)
]

-- A step that may crash.
abbrev pub MayKeep : NvRam → Option Store → Type 0
MayKeep r none = Unit {0}
MayKeep r (some (s, r')) = Keeps r r'

MayKeep-trans : {a b : NvRam} (o : Option Store) → Keeps a b → MayKeep b o → MayKeep a o
MayKeep-trans none f g = tt
MayKeep-trans (some (s, r)) f g = Keeps-trans f g

pub mqtt_members-MayKeep :
    (j : Json) (members : List (Option Bytes × j.Value)) (q : Store)
    → MayKeep q.1 (store_mqtt_members j members q)
unfolding store_mqtt_members
mqtt_members-MayKeep j [] q = Keeps-refl q.1
mqtt_members-MayKeep j ((none, v) ∷ members) q = elim (Bool-cases (j.is_string v)) [
  | inl e ↦ rw e tt
  | inr e ↦ rw e (mqtt_members-MayKeep j members q)
]
mqtt_members-MayKeep j ((some name, v) ∷ members) q = elim (Bool-cases (j.is_string v)) [
  | inl e ↦ elim (Option-cases (j.valuestring v)) [
    | inl n ↦ rw (e, n) tt
    | inr (text, n) ↦
        rw (e, n)
          (MayKeep-trans _ (store_text-Keeps name text q)
            (mqtt_members-MayKeep j members (store_text name text q)))
  ]
  | inr e ↦ rw e (mqtt_members-MayKeep j members q)
]

websocket_members-MayKeep :
    (j : Json) (members : List (Option Bytes × j.Value)) (q : Store)
    → MayKeep q.1 (store_websocket_members j members q)
unfolding store_websocket_members
websocket_members-MayKeep j [] q = Keeps-refl q.1
websocket_members-MayKeep j ((none, v) ∷ members) q =
    elim (Bool-cases (j.is_string v || j.is_number v)) [
      | inl e ↦ rw e tt
      | inr e ↦ rw e (websocket_members-MayKeep j members q)
    ]
websocket_members-MayKeep j ((some name, v) ∷ members) (s, r) = elim (Bool-cases (j.is_string v)) [
  | inl e ↦ elim (Option-cases (j.valuestring v)) [
    | inl n ↦ rw (e, n) tt
    | inr (text, n) ↦
        rw (e, n)
          (MayKeep-trans _ (set_string-Keeps s r name text)
            (websocket_members-MayKeep j members (set_string s r name text)))
  ]
  | inr e ↦ elim (Bool-cases (j.is_number v)) [
    | inl n ↦
        rw (e, n)
          (MayKeep-trans _ (set_int-Keeps s r name (j.valueint v))
            (websocket_members-MayKeep j members (set_int s r name (j.valueint v))))
    | inr n ↦ rw (e, n) (websocket_members-MayKeep j members (s, r))
  ]
]

open_settings-Keeps :
    (ns : Bytes) (b : Bool) (r : NvRam) → r.inited ≡ true → Keeps r (open_settings ns b r).1
unfolding open_settings nvs_open init_nv_ram find
open_settings-Keeps ns b r i = record {
  entries = λ s k v e. rw i (find_entry-get_section s k (c_str ns) r.nv_caches ∙ e);
  stays_inited = λ e. rw i refl;
}

pub close_settings-Keeps : (s : Settings) (r : NvRam) → Keeps r (close_settings s r)
unfolding close_settings nvs_commit commit_nv_ram find
close_settings-Keeps s r = record {
  entries = λ x k v e. ground (arith, e);
  stays_inited = λ e. ground (arith, e);
}

abbrev pub StoreKeeps : NvRam → Option NvRam → Type 0
StoreKeeps r none = Unit {0}
StoreKeeps r (some r') = Keeps r r'

closed-Keeps :
    {r r' : NvRam} (o : Option Store) → Keeps r r' → MayKeep r' o → StoreKeeps r (close_store o)
closed-Keeps none f g = tt
closed-Keeps (some (s, q)) f g = Keeps-trans f (Keeps-trans g (close_settings-Keeps s q))

pub store_mqtt-Keeps :
    (j : Json) (root : j.Value) (r : NvRam) → r.inited ≡ true → StoreKeeps r (store_mqtt j root r)
unfolding store_mqtt
store_mqtt-Keeps j root r i = elim (Option-cases (j.item root (codes "mqtt"))) [
  | inl n ↦ rw (n, store_mqtt, StoreKeeps) (Keeps-refl r)
  | inr (v, n) ↦
      let q = open_settings (codes "mqtt") true r in
      let e : store_mqtt j root r ≡ close_store (store_mqtt_members j (j.children v) q) =
        rw (n, store_mqtt) in
      subst (StoreKeeps r) (sym e) (
        closed-Keeps (store_mqtt_members j (j.children v) q)
          (open_settings-Keeps (codes "mqtt") true r i) (mqtt_members-MayKeep j (j.children v) q))
]

pub store_websocket-Keeps :
    (j : Json) (root : j.Value) (r : NvRam)
    → r.inited ≡ true
    → StoreKeeps r (store_websocket j root r)
unfolding store_websocket
store_websocket-Keeps j root r i = elim (Option-cases (j.item root (codes "websocket"))) [
  | inl n ↦ rw (n, store_websocket, StoreKeeps) (Keeps-refl r)
  | inr (v, n) ↦
      let q = open_settings (codes "websocket") true r in
      let e : store_websocket j root r ≡ close_store (store_websocket_members j (j.children v) q) =
        rw (n, store_websocket) in
      subst (StoreKeeps r) (sym e) (
        closed-Keeps (store_websocket_members j (j.children v) q)
          (open_settings-Keeps (codes "websocket") true r i)
          (websocket_members-MayKeep j (j.children v) q))
]

abbrev AnswerKeeps : NvRam → Option (Ota × NvRam) → Type 0
AnswerKeeps r none = Unit {0}
AnswerKeeps r (some (o, r')) = Keeps r r'

last-AnswerKeeps :
    {r r' : NvRam} (x : Option Ota)
    → Keeps r r'
    → AnswerKeeps r (x >>= λ (last : Ota). some (last, r'))
last-AnswerKeeps none f = tt
last-AnswerKeeps (some o) f = f

take_answer-AnswerKeeps :
    (j : Json) (root : j.Value) (o : Ota) (r : NvRam)
    → r.inited ≡ true
    → AnswerKeeps r (take_answer j root o r)
unfolding take_answer
take_answer-AnswerKeeps j root o r i = elim (Option-cases (take_activation j root o)) [
  | inl e ↦ rw (e, take_answer) tt
  | inr (o', e) ↦ elim (Option-cases (store_mqtt j root r)) [
    | inl f ↦ rw (e, f, take_answer) tt
    | inr (r1, f) ↦
        let k1 : Keeps r r1 = rw f at (store_mqtt-Keeps j root r i) in
        elim (Option-cases (store_websocket j root r1)) [
          | inl g ↦ rw (e, f, g, take_answer) tt
          | inr (r2, g) ↦
              let k2 : Keeps r1 r2 =
                rw g at (store_websocket-Keeps j root r1 (k1.stays_inited i)) in
              rw (e, f, g, take_answer) (last-AnswerKeeps _ (Keeps-trans k1 k2))
        ]
  ]
]

-- Once the file has been read, an answer of the server that is stored changes no entry that the
-- store has already, whatever the answer holds.
pub take_answer_keeps_entries :
    (j : Json) (root : j.Value) (o o' : Ota) (r r' : NvRam) (s k v : Bytes)
    → r.inited ≡ true
    → take_answer j root o r ≡ some (o', r')
    → find r (some s) k ≡ some v
    → find r' (some s) k ≡ some v
take_answer_keeps_entries j root o o' r r' s k v i e =
    let keeps : AnswerKeeps r (some (o', r')) =
      subst (AnswerKeeps r) e (take_answer-AnswerKeeps j root o r i) in
    keeps.entries s k v
