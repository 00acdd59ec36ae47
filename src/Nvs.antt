-- ===== src/Nvs.antt =====
-- porting/nvs_flash.cc: the key-value store behind the ESP-IDF `nvs_*` functions, and the file
-- `.xiaozhi_config` that it is kept in. Keys, values and names are C strings: bytes with no NUL.
pub mod Line
pub mod File
pub mod Tables
pub mod Reboot
pub mod Access
pub mod Kept
pub mod Abstract
pub mod Writes
use xiaozhi_pc.Base.{ℕ, Bool, true, Option, none, some, [], ltb, ◌^◌, length, if◌then◌else◌}
use xiaozhi_pc.Base.Text.{Bytes}
use xiaozhi_pc.Base.Int.{ℤ, pos, negsuc, atoi, to_string}
use xiaozhi_pc.Base.Dict.{emplace, erase}
use Line.{find_entry, Caches, KvMap, get_section, at_section, load_file, print_file}

-- The module's variables, and what it meets outside: the contents of the file (`none` when it
-- cannot be opened for reading), and whether it can be opened for writing.
pub record NvRam : Type 0 where
  pub inited : Bool
  pub nv_caches : Caches
  pub file : Option Bytes
  pub writable : Bool

-- `ESP_OK`, `ESP_ERR_INVALID_ARG`, `ESP_ERR_NVS_NOT_FOUND`
pub data Status : Type 0 where
  esp_ok invalid_arg nvs_not_found : Status

-- `nvs_handle_t`: a null pointer, or a pointer to the section of that name.
abbrev pub Handle : Type 0
Handle = Option Bytes

unfoldable pub init_nv_ram : NvRam → NvRam
init_nv_ram r = if r.inited then r else elim r.file [
  | none ↦ record r { inited = true }
  | some text ↦ record r { inited = true; nv_caches = load_file text r.nv_caches }
]

unfoldable pub commit_nv_ram : NvRam → NvRam
commit_nv_ram r = if r.writable then record r { file = some (print_file r.nv_caches) } else r

-- `nvs_open`, whose flags are not read.
unfoldable pub nvs_open : NvRam → Bytes → Handle × NvRam
nvs_open r ns =
    let r' = init_nv_ram r in (some ns, record r' { nv_caches = get_section ns r'.nv_caches })

unfoldable pub nvs_commit : NvRam → Status × NvRam
nvs_commit r = (esp_ok, commit_nv_ram r)

unfoldable pub find : NvRam → Handle → Bytes → Option Bytes
find r none key = none
find r (some ns) key = find_entry ns key r.nv_caches

-- What `nvs_get_str` leaves in `*length` and writes to the buffer.
pub record StrResult : Type 0 where
  pub status : Status
  pub length_out : ℕ
  pub written : Bytes

-- The flag says that `buffer` is not null, and `length_in` is `*length` on entry.
unfoldable pub nvs_get_str : NvRam → Handle → Bytes → Bool → ℕ → StrResult
nvs_get_str r h key buffer length_in = elim (find r h key) [
  | none ↦ record { status = nvs_not_found; length_out = length_in; written = [] }
  | some value ↦
      if buffer
      then (if ltb length_in (length value)
          then record { status = invalid_arg; length_out = length_in; written = [] }
          else record { status = esp_ok; length_out = length value; written = value })
      else record { status = esp_ok; length_out = length value; written = [] }
]

-- A change of the section behind a handle.
unfoldable pub modify : Handle → (KvMap → KvMap) → NvRam → Status × NvRam
modify none f r = (invalid_arg, r)
modify (some ns) f r = (esp_ok, record r { nv_caches = at_section ns f r.nv_caches })

unfoldable pub nvs_set_str : Handle → Bytes → Bytes → NvRam → Status × NvRam
nvs_set_str h key value = modify h (emplace key value)

pub data IntResult : Type 0 where
  found : ℤ → IntResult
  -- `atoi` of a text whose number is no `int`: undefined behaviour
  undefined : IntResult
  missing : IntResult

-- The value is that of an `int32_t`.
unfoldable pub is_int32 : ℤ → Bool
is_int32 (pos n) = ltb n (2 ^ 31)
is_int32 (negsuc n) = ltb n (2 ^ 31)

unfoldable pub nvs_get_i32 : NvRam → Handle → Bytes → IntResult
nvs_get_i32 r h key = elim (find r h key) [
  | none ↦ missing
  | some text ↦ if is_int32 (atoi text) then found (atoi text) else undefined
]

unfoldable pub nvs_set_i32 : Handle → Bytes → ℤ → NvRam → Status × NvRam
nvs_set_i32 h key value = modify h (emplace key (to_string value))

unfoldable pub nvs_erase_key : Handle → Bytes → NvRam → Status × NvRam
nvs_erase_key h key = modify h (erase key)

unfoldable pub nvs_erase_all : Handle → NvRam → Status × NvRam
nvs_erase_all h = modify h (λ _. [])
