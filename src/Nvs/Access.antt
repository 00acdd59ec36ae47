-- ===== src/Nvs/Access.antt =====
-- porting/nvs_flash.cc: what a reader finds after a writer.
use xiaozhi_pc.Base.{◌≡◌, ◌≢◌, ◌&&◌, inl, inr, none, some, [], arith, if◌then◌else◌, Option-cases}
use mathlib.Core.Option
use xiaozhi_pc.Base.Text.{Bytes, text_eq, text_eq_iff}
use xiaozhi_pc.Base.Dict.{lookup, emplace, erase, lookup-erase}
use xiaozhi_pc.Nvs.Line.{get_section, find_entry}
use xiaozhi_pc.Nvs.Tables.{lookup-emplace, lookup-at_section}
use xiaozhi_pc.Nvs.{
  NvRam, find, modify, nvs_open, init_nv_ram, nvs_set_str, nvs_erase_key, nvs_erase_all,
}

-- The handle points to a section that is there, as `nvs_open` leaves it.
abbrev pub IsOpen : NvRam → Bytes → Type 0
IsOpen r ns = lookup ns r.nv_caches ≢ none

pub nvs_open-IsOpen : (r : NvRam) (ns : Bytes) → IsOpen (nvs_open r ns).1 ns
unfolding nvs_open get_section
nvs_open-IsOpen r ns e =
    ground (arith, lookup-emplace ns ns [] (init_nv_ram r).nv_caches, text_eq_iff ns ns)

module _ (r : NvRam) (ns s k key : Bytes) where
  -- On a section that is there, `nvs_set_str` stores a value under a key that had none, leaves a key that had one as it was,
  -- and never touches another key or section.
  pub find-nvs_set_str :
      (value : Bytes)
      → IsOpen r ns
      → find (nvs_set_str (some ns) key value r).1 (some s) k ≡ (
          if text_eq ns s && text_eq key k
          then some (Option.get_or (find r (some ns) key) value)
          else find r (some s) k)
  unfolding find find_entry nvs_set_str modify
  find-nvs_set_str value h =
      rw (lookup-at_section s ns (emplace key value) r.nv_caches)
        (elim (Option-cases (lookup ns r.nv_caches)) [
          | inl e ↦ absurd (h e)
          | inr (sec, e) ↦
              ground (arith, text_eq_iff ns s, text_eq_iff key k, lookup-emplace k key value sec)
        ])

  -- `nvs_erase_key` removes the key from its section and leaves every other entry.
  find-nvs_erase_key :
      find (nvs_erase_key (some ns) key r).1 (some s) k
      ≡ (if text_eq ns s && text_eq key k then none else find r (some s) k)
  unfolding find find_entry nvs_erase_key modify
  find-nvs_erase_key =
      rw (lookup-at_section s ns (erase key) r.nv_caches)
        (elim (Option-cases (lookup s r.nv_caches)) [
          | inl e ↦ ground arith
          | inr (sec, e) ↦ ground (arith, text_eq_iff key k, lookup-erase k key sec)
        ])

  -- `nvs_erase_all` empties its section and no other.
  find-nvs_erase_all :
      find (nvs_erase_all (some ns) r).1 (some s) k
      ≡ (if text_eq ns s then none else find r (some s) k)
  unfolding find find_entry nvs_erase_all modify lookup
  find-nvs_erase_all =
      rw (lookup-at_section s ns (λ _. []) r.nv_caches)
        (ground (arith, Option-cases (lookup s r.nv_caches)))
