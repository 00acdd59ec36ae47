-- ===== src/Ota/Provision.antt =====
-- ota.cc, settings.cc and protocols/mqtt_protocol.cc: the broker that the server's answer names is
-- the one that `StartMqttClient` then reads.
use xiaozhi_pc.Base.{
  ◌≡◌, ◌⊎◌, refl, ap, ◌∙◌, subst, ◌&&◌, true, false, inl, inr, Option, none, some, List, [], ◌∷◌,
  arith, Option-cases, Bool-cases, if◌then◌else◌,
}
use xiaozhi_pc.Base.Text.{Bytes, text_eq, text_eq_iff, text_eq_refl}
use xiaozhi_pc.Base.Dict.{lookup, emplace}
use xiaozhi_pc.Nvs.{NvRam, Handle, find, nvs_set_str, modify}
use xiaozhi_pc.Nvs.Tables.{lookup-at_section}
use xiaozhi_pc.Nvs.Access.{IsOpen, find-nvs_set_str}
use xiaozhi_pc.Settings.{c_str, get_string, set_string, written}
use xiaozhi_pc.Settings.Values.{HasNoNul, get_string-find, written_lem, c_str-HasNoNul}
use xiaozhi_pc.Mqtt.Hello.{Json}
use xiaozhi_pc.Ota.{Store, store_text, store_mqtt_members}
use xiaozhi_pc.Ota.Update.{MayKeep, mqtt_members-MayKeep}

-- The first text under a name that is not empty.
unfoldable pub first_text : (j : Json) → List (Option Bytes × j.Value) → Bytes → Option Bytes
first_text j [] k = none
first_text j ((none, v) ∷ members) k = first_text j members k
first_text j ((some name, v) ∷ members) k =
    let rest = first_text j members k in
    if j.is_string v && text_eq (c_str name) k
    then elim (j.valuestring v) [
      | none ↦ rest
      | some text ↦ if text_eq text [] then rest else some text
    ]
    else rest

-- cJSON hands out texts that end at their first NUL.
abbrev pub HasCStrings : Json → Type 0
HasCStrings j = (v : j.Value) (t : Bytes) → j.valuestring v ≡ some t → HasNoNul t

-- An object that is open for writing on a section that is there.
pub record IsWriter (ns : Bytes) (q : Store) : Type 0 where
  pub handle : q.0.nvs_handle ≡ some ns
  pub writes : q.0.read_write ≡ true
  pub opened : IsOpen q.1 ns

set_string_lem :
    (ns name text : Bytes) (q : Store)
    → IsWriter ns q
    → HasNoNul text
    → set_string q.0 q.1 name text
      ≡ (record q.0 { dirty = true }, (nvs_set_str (some ns) (c_str name) text q.1).1)
unfolding set_string
set_string_lem ns name text (s, r) w nul = rw (c_str-HasNoNul text nul) (
    ap (λ (h : Handle). written s r (nvs_set_str h (c_str name) text r)) w.handle
    ∙ written_lem s r (nvs_set_str (some ns) (c_str name) text r) w.writes)

store_text_cases :
    (ns name text : Bytes) (q : Store)
    → IsWriter ns q
    → HasNoNul text
    → (store_text name text q ≡ q)
      ⊎ (store_text name text q
          ≡ (record q.0 { dirty = true }, (nvs_set_str (some ns) (c_str name) text q.1).1))
unfolding store_text
store_text_cases ns name text (s, r) w nul =
    elim (Bool-cases (text_eq (get_string s r name []) text)) [
      | inl e ↦ inl (rw e)
      | inr e ↦ inr (rw e (set_string_lem ns name text (s, r) w nul))
    ]

IsOpen-nvs_set_str :
    (ns key value : Bytes) (r : NvRam)
    → IsOpen r ns
    → IsOpen (nvs_set_str (some ns) key value r).1 ns
unfolding nvs_set_str modify
IsOpen-nvs_set_str ns key value r h e = h (
    ground (
      arith,
      lookup-at_section ns ns (emplace key value) r.nv_caches,
      text_eq_iff ns ns,
      e,
      Option-cases (lookup ns r.nv_caches),
    ))

module _ (ns name text : Bytes) (q : Store) (w : IsWriter ns q) (nul : HasNoNul text) where
  store_text-IsWriter : IsWriter ns (store_text name text q)
  store_text-IsWriter = elim (store_text_cases ns name text q w nul) [
    | inl e ↦ rw e w
    | inr e ↦ rw e (record {
      handle = w.handle;
      writes = w.writes;
      opened = IsOpen-nvs_set_str ns (c_str name) text q.1 w.opened;
    })
  ]

  -- Another key keeps its value.
  store_text_other :
      (k : Bytes)
      → text_eq (c_str name) k ≡ false
      → find (store_text name text q).1 (some ns) k ≡ find q.1 (some ns) k
  store_text_other k ne = elim (store_text_cases ns name text q w nul) [
    | inl e ↦ rw e refl
    | inr e ↦ rw (e, find-nvs_set_str q.1 ns ns k (c_str name) text w.opened, ne) (ground arith)
  ]

store_text-set :
    (ns name text : Bytes) (q : Store)
    → IsWriter ns q
    → HasNoNul text
    → find q.1 (some ns) (c_str name) ≡ none
    → find (store_text name text q).1 (some ns) (c_str name)
      ≡ (if text_eq text [] then none else some text)
unfolding store_text text_eq
store_text-set ns name [] (s, r) w nul free =
    rw (get_string-find s r ns name [] w.handle, free) free
store_text-set ns name (c ∷ text) (s, r) w nul free = rw (
  get_string-find s r ns name [] w.handle,
  free,
  set_string_lem ns name (c ∷ text) (s, r) w nul,
  find-nvs_set_str r ns ns (c_str name) (c_str name) (c ∷ text) w.opened,
  free,
  text_eq_refl ns,
  text_eq_refl (c_str name),
)

store_text_same :
    (ns name text k : Bytes) (q : Store)
    → IsWriter ns q
    → HasNoNul text
    → text_eq (c_str name) k ≡ true
    → find q.1 (some ns) k ≡ none
    → find (store_text name text q).1 (some ns) k ≡ (if text_eq text [] then none else some text)
store_text_same ns name text k q w nul same free =
    subst
      (λ (k : Bytes).
        find q.1 (some ns) k ≡ none
        → find (store_text name text q).1 (some ns) k
          ≡ (if text_eq text [] then none else some text))
      ((text_eq_iff (c_str name) k).0 same) (store_text-set ns name text q w nul) free

-- The text that the answer holds for a key reaches the store.
abbrev pub Holds : Bytes → Bytes → Bytes → Option Store → Type 0
Holds ns k t none = Unit {0}
Holds ns k t (some (s, r)) = find r (some ns) k ≡ some t

Holds-MayKeep :
    (ns k t : Bytes) (r : NvRam) (o : Option Store)
    → MayKeep r o
    → find r (some ns) k ≡ some t
    → Holds ns k t o
Holds-MayKeep ns k t r none h e = tt
Holds-MayKeep ns k t r (some (s, r')) h e = h.entries ns k t e

pub store_mqtt_members-Holds :
    (j : Json) (ns k t : Bytes) (members : List (Option Bytes × j.Value)) (q : Store)
    → HasCStrings j
    → IsWriter ns q
    → find q.1 (some ns) k ≡ none
    → first_text j members k ≡ some t
    → Holds ns k t (store_mqtt_members j members q)
unfolding store_mqtt_members first_text
store_mqtt_members-Holds j ns k t [] q nul w free e = absurd (ground arith)
store_mqtt_members-Holds j ns k t ((none, v) ∷ members) q nul w free e =
    elim (Bool-cases (j.is_string v)) [
      | inr isnt ↦ rw isnt (store_mqtt_members-Holds j ns k t members q nul w free e)
      | inl is ↦ rw is tt
    ]
store_mqtt_members-Holds j ns k t ((some name, v) ∷ members) q nul w free e =
    elim (Bool-cases (j.is_string v)) [
      | inr isnt ↦ rw isnt (store_mqtt_members-Holds j ns k t members q nul w free (rw isnt at e))
      | inl is ↦ elim (Option-cases (j.valuestring v)) [
        | inl n ↦ rw (is, n) tt
        | inr (text, n) ↦
            let nt = nul v text n in
            rw (is, n)
              (elim (Bool-cases (text_eq (c_str name) k)) [
                | inr other ↦
                    store_mqtt_members-Holds j ns k t members (store_text name text q) nul
                      (store_text-IsWriter ns name text q w nt)
                      (store_text_other ns name text q w nt k other ∙ free) (rw (is, other) at e)
                | inl same ↦
                    let set = store_text_same ns name text k q w nt same free in
                    elim (Bool-cases (text_eq text [])) [
                      | inl empty ↦
                          store_mqtt_members-Holds j ns k t members (store_text name text q) nul
                            (store_text-IsWriter ns name text q w nt) (rw empty at set)
                            (rw (is, same, n, empty) at e)
                      | inr full ↦
                          Holds-MayKeep ns k t (store_text name text q).1 _
                            (mqtt_members-MayKeep j members (store_text name text q))
                            ((rw full at set) ∙ (rw (is, same, n, full) at e))
                    ]
              ])
      ]
    ]
