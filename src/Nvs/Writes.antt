-- ===== src/Nvs/Writes.antt =====
-- porting/nvs_flash.cc: what the next process finds after any number of writes.
use xiaozhi_pc.Base.{
  ◌≡◌, refl, ◌∙◌, ap, ◌&&◌, true, Option, none, some, List, [], ◌∷◌, arith, if◌then◌else◌,
}
use xiaozhi_pc.Base.Text.{Bytes, text_eq, text_eq_iff}
use xiaozhi_pc.Nvs.Line.{find_entry, Caches}
use xiaozhi_pc.Nvs.File.{IsName, IsKey, IsValue}
use xiaozhi_pc.Nvs.Tables.{IsTable}
use xiaozhi_pc.Nvs.Reboot.{IsStorable, restarted, find-restarted-commit}
use xiaozhi_pc.Nvs.Kept.{IsStorable-stored, IsTable-stored}
use xiaozhi_pc.Nvs.Abstract.{open_and_set, find_entry-open_and_set, write, write_caches}
use xiaozhi_pc.Nvs.{NvRam, find, nvs_commit, init_nv_ram}

-- The section, the key and the text of each write.
abbrev pub Writes : Type 0
Writes = List (Bytes × Bytes × Bytes)

-- Each section opened and its text stored, in turn.
unfoldable pub write_all : Writes → NvRam → NvRam
unfolding write
write_all [] r = r
write_all ((s, k, v) ∷ ws) r = write_all ws (write s k v r)

-- The text of the first write under a name.
abbrev pub first_text : Bytes → Bytes → Writes → Option Bytes
first_text t j [] = none
first_text t j ((s, k, v) ∷ ws) = if text_eq s t && text_eq k j then some v else first_text t j ws

-- What there was, or else that text.
abbrev pub kept_or_first : Bytes → Bytes → Writes → Option Bytes → Option Bytes
kept_or_first t j ws none = first_text t j ws
kept_or_first t j ws (some old) = some old

-- The file can hold what is written.
abbrev pub AreWritable : Writes → Type 0
AreWritable [] = Unit
AreWritable ((s, k, v) ∷ ws) = (IsName s × IsKey k × IsValue v) × AreWritable ws

set_all : Writes → Caches → Caches
unfolding open_and_set
set_all [] c = c
set_all ((s, k, v) ∷ ws) c = set_all ws (open_and_set s k v c)

write_all_caches :
    (ws : Writes) (r : NvRam)
    → r.inited ≡ true
    → write_all ws r ≡ record r { nv_caches = set_all ws r.nv_caches }
unfolding write_all set_all
write_all_caches [] r i = refl
write_all_caches ((s, k, v) ∷ ws) r i =
    ap (write_all ws) (write_caches s k v r i)
    ∙ write_all_caches ws (record r { nv_caches = open_and_set s k v r.nv_caches }) i

find_entry-set_all :
    (t j : Bytes) (ws : Writes) (c : Caches)
    → find_entry t j (set_all ws c) ≡ kept_or_first t j ws (find_entry t j c)
unfolding set_all
find_entry-set_all t j [] c = ground arith
find_entry-set_all t j ((s, k, v) ∷ ws) c =
    find_entry-set_all t j ws (open_and_set s k v c)
    ∙ ap (kept_or_first t j ws) (find_entry-open_and_set t j s k v c)
    ∙ ground (arith, text_eq_iff s t, text_eq_iff k j)

IsStorable-set_all :
    (ws : Writes) (c : Caches) → AreWritable ws → IsStorable c → IsStorable (set_all ws c)
unfolding set_all open_and_set
IsStorable-set_all [] c w h = h
IsStorable-set_all ((s, k, v) ∷ ws) c ((a, b, d), w) h =
    IsStorable-set_all ws (open_and_set s k v c) w (IsStorable-stored s k v c a b d h)

IsTable-set_all : (ws : Writes) (c : Caches) → IsTable c → IsTable (set_all ws c)
unfolding set_all open_and_set
IsTable-set_all [] c h = h
IsTable-set_all ((s, k, v) ∷ ws) c h =
    IsTable-set_all ws (open_and_set s k v c) (IsTable-stored s k v c h)

-- After any writes of texts that the file can hold and a commit, the next process finds under every name what the store
-- had there before, and where it had nothing the text of the first write under that name, if the file could be
-- written, had been read, and could hold what was in the store.
pub find-restarted-write_all :
    (t j : Bytes) (ws : Writes) (r : NvRam)
    → r.inited ≡ true
    → r.writable ≡ true
    → IsStorable r.nv_caches
    → IsTable r.nv_caches
    → AreWritable ws
    → find (init_nv_ram (restarted (nvs_commit (write_all ws r)).1)) (some t) j
      ≡ kept_or_first t j ws (find r (some t) j)
unfolding find
find-restarted-write_all t j ws r i w h u a = rw (write_all_caches ws r i) (
    find-restarted-commit (record r { nv_caches = set_all ws r.nv_caches }) t j w
      (IsStorable-set_all ws r.nv_caches a h) (IsTable-set_all ws r.nv_caches u)
    ∙ find_entry-set_all t j ws r.nv_caches)
