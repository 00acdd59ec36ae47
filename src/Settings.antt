-- ===== src/Settings.antt =====
-- settings.cc and settings.h: a namespace of the key-value store, opened for reading or writing.
-- The methods take the object and the store and return them changed. `ESP_ERROR_CHECK` is the
-- identity in porting/esp_port.h, so that no status stops a method.
pub mod Values
use xiaozhi_pc.Base.{
  ℕ, Bool, true, false, ◌&&◌, none, some, [], ◌∷◌, ◌==◌, if◌then◌else◌, replicate,
}
use xiaozhi_pc.Base.Text.{Bytes}
use xiaozhi_pc.Base.Int.{ℤ}
use xiaozhi_pc.Nvs.{
  NvRam, Handle, Status, esp_ok, StrResult, IntResult, found, undefined, missing, nvs_open,
  nvs_commit, nvs_get_str, nvs_set_str, nvs_get_i32, nvs_set_i32, nvs_erase_key, nvs_erase_all,
}

pub record Settings : Type 0 where
  pub ns : Bytes
  pub nvs_handle : Handle
  pub read_write : Bool
  pub dirty : Bool

-- `std::string::c_str()` read as a C string ends at the first NUL.
unfoldable pub c_str : Bytes → Bytes
c_str [] = []
c_str (c ∷ cs) = if c == 0 then [] else c ∷ c_str cs

-- The constructor.
unfoldable pub open_settings : Bytes → Bool → NvRam → Settings × NvRam
open_settings ns read_write r =
    let (h, r') = nvs_open r (c_str ns) in
    (record { ns = ns; nvs_handle = h; read_write = read_write; dirty = false }, r')

-- The destructor.
unfoldable pub close_settings : Settings → NvRam → NvRam
close_settings s r = elim s.nvs_handle [
  | none ↦ r
  | some _ ↦ if s.read_write && s.dirty then (nvs_commit r).1 else r
]

-- `c` in front of a text that has lost its NULs at the end.
cons_stripped : ℕ → Bytes → Bytes
cons_stripped c [] = if c == 0 then [] else c ∷ []
cons_stripped c (d ∷ ds) = c ∷ d ∷ ds

-- The loop of `GetString` that takes NULs off the end.
pub strip_nul : Bytes → Bytes
strip_nul [] = []
strip_nul (c ∷ cs) = cons_stripped c (strip_nul cs)

-- The buffer, filled with NULs by `resize`, after the second call.
unfoldable pub filled : ℕ → StrResult → Bytes
filled n result = elim result.status [ esp_ok ↦ result.written | _ ↦ replicate n 0 ]

unfoldable pub read_value : NvRam → Handle → Bytes → Bytes → StrResult → Bytes
read_value r h key default_value sized = elim sized.status [
  | esp_ok ↦ strip_nul (filled sized.length_out (nvs_get_str r h (c_str key) true sized.length_out))
  | _ ↦ default_value
]

unfoldable pub get_string : Settings → NvRam → Bytes → Bytes → Bytes
get_string s r key default_value = elim s.nvs_handle [
  | none ↦ default_value
  | some ns ↦ read_value r (some ns) key default_value (nvs_get_str r (some ns) (c_str key) false 0)
]

-- A method that writes: the object is marked dirty whatever the status.
unfoldable pub written : Settings → NvRam → Status × NvRam → Settings × NvRam
written s r (status, r') = if s.read_write then (record s { dirty = true }, r') else (s, r)

unfoldable pub set_string : Settings → NvRam → Bytes → Bytes → Settings × NvRam
set_string s r key value = written s r (nvs_set_str s.nvs_handle (c_str key) (c_str value) r)

pub get_int : Settings → NvRam → Bytes → ℤ → IntResult
get_int s r key default_value = elim s.nvs_handle [
  | none ↦ found default_value
  | some ns ↦ elim (nvs_get_i32 r (some ns) (c_str key)) [
    | found i ↦ found i
    | undefined ↦ undefined
    | missing ↦ found default_value
  ]
]

unfoldable pub set_int : Settings → NvRam → Bytes → ℤ → Settings × NvRam
set_int s r key value = written s r (nvs_set_i32 s.nvs_handle (c_str key) value r)

-- The methods that erase leave `dirty_` as it is.
pub erase_key : Settings → NvRam → Bytes → Settings × NvRam
erase_key s r key =
    if s.read_write then (s, (nvs_erase_key s.nvs_handle (c_str key) r).1) else (s, r)

pub erase_all : Settings → NvRam → Settings × NvRam
erase_all s r = if s.read_write then (s, (nvs_erase_all s.nvs_handle r).1) else (s, r)
