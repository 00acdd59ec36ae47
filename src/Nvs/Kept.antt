-- ===== src/Nvs/Kept.antt =====
-- porting/nvs_flash.cc: opening a section and storing a value keep the table fit for the file.
use xiaozhi_pc.Base.{◌≡◌, refl, false, none, [], ◌∷◌, arith, if_cases}
use xiaozhi_pc.Base.Text.{Bytes, text_eq, text_eq_iff}
use xiaozhi_pc.Base.Dict.{Dict, lookup, emplace, NodupKeys}
use xiaozhi_pc.Nvs.Line.{KvMap, Caches, get_section, at_section}
use xiaozhi_pc.Nvs.File.{IsName, IsKey, IsValue}
use xiaozhi_pc.Nvs.Tables.{IsTable, lookup-emplace, lookup-at_section}
use xiaozhi_pc.Nvs.Reboot.{AreEntries, IsStorable}

AreEntries-emplace :
    (k v : Bytes) (kv : KvMap) → IsKey k → IsValue v → AreEntries kv → AreEntries (emplace k v kv)
unfolding emplace
AreEntries-emplace k v [] hk hv h = (hk, hv, tt)
AreEntries-emplace k v ((j, w) ∷ kv) hk hv h =
    if_cases AreEntries (text_eq j k) ((j, w) ∷ kv) ((j, w) ∷ emplace k v kv) (λ t. h)
      (λ t. (h.0, h.1, AreEntries-emplace k v kv hk hv h.2))

emplace-none {ℓ} :
    {V : Type ℓ} (j k : Bytes) (v : V) (m : Dict V)
    → lookup j m ≡ none
    → text_eq j k ≡ false
    → lookup j (emplace k v m) ≡ none
emplace-none j k v m h t =
    rw (lookup-emplace j k v m, h) (ground (arith, text_eq_iff j k, text_eq_iff k j))

NodupKeys-emplace {ℓ} :
    {V : Type ℓ} (k : Bytes) (v : V) (m : Dict V) → NodupKeys m → NodupKeys (emplace k v m)
unfolding emplace
NodupKeys-emplace k v [] h = unfold lookup in (refl, tt)
NodupKeys-emplace k v ((j, w) ∷ m) h =
    if_cases NodupKeys (text_eq j k) ((j, w) ∷ m) ((j, w) ∷ emplace k v m) (λ t. h)
      (λ t. (emplace-none j k v m h.0 t, NodupKeys-emplace k v m h.1))

at_section-none :
    (j s : Bytes) (f : KvMap → KvMap) (c : Caches)
    → lookup j c ≡ none
    → lookup j (at_section s f c) ≡ none
at_section-none j s f c h = rw (lookup-at_section j s f c, h) (ground arith)

IsStorable-get_section :
    (s : Bytes) (c : Caches) → IsName s → IsStorable c → IsStorable (get_section s c)
unfolding get_section emplace
IsStorable-get_section s [] hs h = (hs, tt, tt)
IsStorable-get_section s ((j, kv) ∷ c) hs h =
    if_cases IsStorable (text_eq j s) ((j, kv) ∷ c) ((j, kv) ∷ emplace s [] c) (λ t. h)
      (λ t. (h.0, h.1, IsStorable-get_section s c hs h.2))

IsStorable-at_section :
    (s : Bytes) (f : KvMap → KvMap) (c : Caches)
    → ((kv : KvMap) → AreEntries kv → AreEntries (f kv))
    → IsStorable c
    → IsStorable (at_section s f c)
unfolding at_section
IsStorable-at_section s f [] hf h = tt
IsStorable-at_section s f ((j, kv) ∷ c) hf h =
    if_cases IsStorable (text_eq j s) ((j, f kv) ∷ c) ((j, kv) ∷ at_section s f c)
      (λ t. (h.0, hf kv h.1, h.2)) (λ t. (h.0, h.1, IsStorable-at_section s f c hf h.2))

IsTable-get_section : (s : Bytes) (c : Caches) → IsTable c → IsTable (get_section s c)
unfolding get_section emplace
IsTable-get_section s [] h = unfold lookup in (refl, tt, tt)
IsTable-get_section s ((j, kv) ∷ c) h =
    if_cases IsTable (text_eq j s) ((j, kv) ∷ c) ((j, kv) ∷ emplace s [] c) (λ t. h)
      (λ t. (emplace-none j s [] c h.0 t, h.1, IsTable-get_section s c h.2))

IsTable-at_section :
    (s : Bytes) (f : KvMap → KvMap) (c : Caches)
    → ((kv : KvMap) → NodupKeys kv → NodupKeys (f kv))
    → IsTable c
    → IsTable (at_section s f c)
unfolding at_section
IsTable-at_section s f [] hf h = tt
IsTable-at_section s f ((j, kv) ∷ c) hf h =
    if_cases IsTable (text_eq j s) ((j, f kv) ∷ c) ((j, kv) ∷ at_section s f c)
      (λ t. (h.0, hf kv h.1, h.2))
      (λ t. (at_section-none j s f c h.0, h.1, IsTable-at_section s f c hf h.2))

-- A value that a line can hold, stored in a section that is opened for it.
pub IsStorable-stored :
    (s k v : Bytes) (c : Caches)
    → IsName s
    → IsKey k
    → IsValue v
    → IsStorable c
    → IsStorable (at_section s (emplace k v) (get_section s c))
IsStorable-stored s k v c hs hk hv h =
    IsStorable-at_section s (emplace k v) (get_section s c) (λ kv. AreEntries-emplace k v kv hk hv)
      (IsStorable-get_section s c hs h)

pub IsTable-stored :
    (s k v : Bytes) (c : Caches)
    → IsTable c
    → IsTable (at_section s (emplace k v) (get_section s c))
IsTable-stored s k v c h =
    IsTable-at_section s (emplace k v) (get_section s c) (NodupKeys-emplace k v)
      (IsTable-get_section s c h)
