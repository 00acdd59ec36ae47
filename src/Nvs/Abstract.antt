-- ===== src/Nvs/Abstract.antt =====
-- porting/nvs_flash.cc: the store as its readers see it. The tables are hash tables, whose order
-- nobody can rely on: two of them are the same when a search finds the same in both.
use native.Mathlib.Nat.{ℕ_set}
use mathlib.Core.Quot
use mathlib.Core.Quot.{Quot, Quot-set}
use mathlib.Core.Option
use xiaozhi_pc.Base.{
  ◌≡◌, refl, ap, sym, ◌∙◌, ◌&&◌, true, false, Option, none, some, arith, if◌then◌else◌,
}
use xiaozhi_pc.Base.Text.{Bytes, text_eq, text_eq_iff}
use xiaozhi_pc.Base.Dict.{emplace}
use xiaozhi_pc.Nvs.Line.{find_entry, Caches, at_section, get_section}
use xiaozhi_pc.Nvs.File.{IsName, IsKey, IsValue}
use xiaozhi_pc.Nvs.Tables.{find_entry-get_section, IsTable}
use xiaozhi_pc.Nvs.Reboot.{IsStorable, restarted, find-restarted-commit}
use xiaozhi_pc.Nvs.Kept.{IsStorable-stored, IsTable-stored}
use xiaozhi_pc.Nvs.Access.{nvs_open-IsOpen, find-nvs_set_str}
use xiaozhi_pc.Nvs.{NvRam, find, nvs_open, nvs_set_str, modify, nvs_commit, init_nv_ram}

abbrev pub SameEntries : Caches → Caches → Type 0
SameEntries c d = (s k : Bytes) → find_entry s k c ≡ find_entry s k d

-- A store up to order.
abbrev pub Entries : Type 0
Entries = Quot SameEntries

abbrev pub entry : Bytes → Bytes → Entries → Option Bytes
entry s k = Quot.lift (hlevel ℕ_set) (find_entry s k) (λ c d h. h s k)

abbrev pub view : NvRam → Entries
view r = Quot.mk r.nv_caches

-- A section opened and a text stored in it.
unfoldable pub open_and_set : Bytes → Bytes → Bytes → Caches → Caches
open_and_set s k v c = at_section s (emplace k v) (get_section s c)

pub find_entry-open_and_set :
    (t j s k v : Bytes) (c : Caches)
    → find_entry t j (open_and_set s k v c) ≡ (
        if text_eq s t && text_eq k j
        then some (Option.get_or (find_entry s k c) v)
        else find_entry t j c)
unfolding find nvs_open nvs_set_str modify init_nv_ram open_and_set
find_entry-open_and_set t j s k v c =
    find-nvs_set_str (nvs_open r s).1 s t j k v (nvs_open-IsOpen r s)
    ∙ rw (find_entry-get_section s k s c, find_entry-get_section t j s c) refl
  where
    r : NvRam
    r = record { inited = true; nv_caches = c; file = none; writable = true }

open_and_set-SameEntries :
    (s k v : Bytes) (c d : Caches)
    → SameEntries c d
    → SameEntries (open_and_set s k v c) (open_and_set s k v d)
open_and_set-SameEntries s k v c d h t j =
    rw (find_entry-open_and_set t j s k v c, find_entry-open_and_set t j s k v d, h s k, h t j) refl

-- What a first write does to the store, whichever order the tables have.
abbrev set_entry : Bytes → Bytes → Bytes → Entries → Entries
set_entry s k v =
    Quot.lift Quot-set (λ c. Quot.mk (open_and_set s k v c))
      (λ c d h. Quot.sound (open_and_set-SameEntries s k v c d h))

-- What a reader finds after a write.
entry-set_entry :
    (t j s k v : Bytes) (q : Entries)
    → entry t j (set_entry s k v q)
      ≡ (if text_eq s t && text_eq k j then some (Option.get_or (entry s k q) v) else entry t j q)
entry-set_entry t j s k v =
    Quot.ind {r = SameEntries} (λ q. hlevel ℕ_set) (λ c. find_entry-open_and_set t j s k v c)

-- Writes under two names, in either order.
set_entry_comm :
    (s k v t j w : Bytes) (q : Entries)
    → (text_eq s t && text_eq k j) ≡ false
    → set_entry s k v (set_entry t j w q) ≡ set_entry t j w (set_entry s k v q)
set_entry_comm s k v t j w q ne =
    Quot.ind {r = SameEntries}
      (λ q.
        Quot-set {r = SameEntries} (set_entry s k v (set_entry t j w q))
          (set_entry t j w (set_entry s k v q)))
      (λ c. Quot.sound {r = SameEntries} (λ x y. same c x y)) q
  where
    same :
        (c : Caches) (x y : Bytes)
        → find_entry x y (open_and_set s k v (open_and_set t j w c))
          ≡ find_entry x y (open_and_set t j w (open_and_set s k v c))
    same c x y =
        rw
          (
            find_entry-open_and_set x y s k v (open_and_set t j w c),
            find_entry-open_and_set x y t j w (open_and_set s k v c),
            find_entry-open_and_set x y s k v c,
            find_entry-open_and_set x y t j w c,
            find_entry-open_and_set s k t j w c,
            find_entry-open_and_set t j s k v c,
          )
          (ground (
            arith,
            text_eq_iff s t,
            text_eq_iff k j,
            text_eq_iff t s,
            text_eq_iff j k,
            text_eq_iff s x,
            text_eq_iff k y,
            text_eq_iff t x,
            text_eq_iff j y,
          ))

-- `nvs_open`, then `nvs_set_str` with the handle.
unfoldable pub write : Bytes → Bytes → Bytes → NvRam → NvRam
write s k v r = let (h, r') = nvs_open r s in (nvs_set_str h k v r').1

pub write_caches :
    (s k v : Bytes) (r : NvRam)
    → r.inited ≡ true
    → write s k v r ≡ record r { nv_caches = open_and_set s k v r.nv_caches }
unfolding write nvs_open nvs_set_str modify init_nv_ram open_and_set
write_caches s k v r i = rw i

-- A write is the abstract one, and a commit and a new process change nothing of the view.
view-write :
    (s k v : Bytes) (r : NvRam) → r.inited ≡ true → view (write s k v r) ≡ set_entry s k v (view r)
view-write s k v r i = ap view (write_caches s k v r i)

view-restarted :
    (r : NvRam)
    → r.writable ≡ true
    → IsStorable r.nv_caches
    → IsTable r.nv_caches
    → view (init_nv_ram (restarted (nvs_commit r).1)) ≡ view r
unfolding find
view-restarted r w h u = Quot.sound (λ s k. find-restarted-commit r s k w h u)

module _ (r : NvRam) (i : r.inited ≡ true) (wr : r.writable ≡ true) where
  view-restarted-writes :
      (s k v t j w : Bytes)
      → IsStorable r.nv_caches
      → IsTable r.nv_caches
      → IsName s × IsKey k × IsValue v
      → IsName t × IsKey j × IsValue w
      → view (init_nv_ram (restarted (nvs_commit (write s k v (write t j w r))).1))
        ≡ set_entry s k v (set_entry t j w (view r))
  unfolding open_and_set
  view-restarted-writes s k v t j w h u (a, b, c) (x, y, z) =
      rw
        (
          write_caches t j w r i,
          write_caches s k v (record r { nv_caches = open_and_set t j w r.nv_caches }) i,
        )
        (view-restarted
          (record r { nv_caches = open_and_set s k v (open_and_set t j w r.nv_caches) }) wr
          (IsStorable-stored s k v _ a b c (IsStorable-stored t j w r.nv_caches x y z h))
          (IsTable-stored s k v _ (IsTable-stored t j w r.nv_caches u)))

  -- Texts that the file can hold, written under two different names in either order and committed,
  -- leave the next process with the same store, seen up to the order of its tables, if the file
  -- could be written, had been read, and could hold what was in the store before.
  pub view-restarted-write :
      (s k v t j w : Bytes)
      → IsStorable r.nv_caches
      → IsTable r.nv_caches
      → IsName s × IsKey k × IsValue v
      → IsName t × IsKey j × IsValue w
      → (text_eq s t && text_eq k j) ≡ false
      → view (init_nv_ram (restarted (nvs_commit (write s k v (write t j w r))).1))
        ≡ view (init_nv_ram (restarted (nvs_commit (write t j w (write s k v r))).1))
  view-restarted-write s k v t j w h u sn tn ne =
      view-restarted-writes s k v t j w h u sn tn
      ∙ set_entry_comm s k v t j w (view r) ne
      ∙ sym (view-restarted-writes t j w s k v h u tn sn)
