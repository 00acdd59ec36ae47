-- ===== src/Examples/Store.antt =====
-- The key-value store and the settings.
use mathlib.Core.Option
use xiaozhi_pc.Base.{◌≡◌, refl, true, false, none, some, [], ◌∷◌, arith, if◌then◌else◌, ◌&&◌}
use xiaozhi_pc.Base.Text.{Bytes, codes, text_eq}
use xiaozhi_pc.Base.Dict.{lookup}
use xiaozhi_pc.Base.Int.{pos, negsuc}
use xiaozhi_pc.Nvs.{find, is_int32, init_nv_ram, nvs_commit, nvs_set_str, found}
use xiaozhi_pc.Nvs.Line.{find_entry}
use xiaozhi_pc.Nvs.Tables.{IsTable}
use xiaozhi_pc.Nvs.Reboot.{IsStorable, restarted, find-restarted-commit}
use xiaozhi_pc.Nvs.Access.{IsOpen, find-nvs_set_str}
use xiaozhi_pc.Settings.{
  Settings, c_str, strip_nul, get_string, set_string, get_int, set_int, close_settings,
}
use xiaozhi_pc.Settings.Values.{
  get_string-set_string, get_int-set_int, erasures, close_settings-erasures,
}
use xiaozhi_pc.Examples.Data.{wifi, ssid, home, store, wifi-IsName, ssid-IsKey, home-IsValue}
use xiaozhi_pc.Base.Text.{lacks-Lacks}
use xiaozhi_pc.Nvs.Writes.{Writes, write_all, kept_or_first, find-restarted-write_all}
use xiaozhi_pc.Nvs.Abstract.{view, write, view-restarted-write}
use xiaozhi_pc.Nvs.File.{IsKey, IsValue}
use xiaozhi_pc.Nvs.Line.{trim, trim_left, trim_right, cons_trimmed}

abbrev settings : Settings
settings = record { ns = wifi; nvs_handle = some wifi; read_write = true; dirty = false }

abbrev volume : Bytes
volume = codes "volume"

store-IsOpen : IsOpen store wifi
unfolding lookup text_eq
store-IsOpen e = ground arith

store-IsStorable : IsStorable store.nv_caches
store-IsStorable = (wifi-IsName, (ssid-IsKey, home-IsValue, tt), tt)

store-IsTable : IsTable store.nv_caches
unfolding lookup
store-IsTable = (refl, (refl, tt), tt)

no_volume : find store (some wifi) (c_str volume) ≡ none
unfolding find find_entry lookup c_str text_eq
no_volume = refl

in_range : is_int32 (negsuc 69) ≡ true
unfolding is_int32
in_range = refl

find-restarted-commit_example :
    find (init_nv_ram (restarted (nvs_commit store).1)) (some wifi) ssid
    ≡ find store (some wifi) ssid
find-restarted-commit_example =
    find-restarted-commit store wifi ssid refl store-IsStorable store-IsTable

find-nvs_set_str_test : find (nvs_set_str (some wifi) ssid volume store).1 (some wifi) ssid ≡ (
    if text_eq wifi wifi && text_eq ssid ssid
    then some (Option.get_or (find store (some wifi) ssid) volume)
    else find store (some wifi) ssid)
find-nvs_set_str_test = find-nvs_set_str store wifi wifi ssid ssid volume store-IsOpen

get_string-set_string_example :
    let (s', r') = set_string settings store ssid volume in
    get_string s' r' ssid []
    ≡ Option.get_or (Option.map strip_nul (find store (some wifi) (c_str ssid))) volume
get_string-set_string_example =
    get_string-set_string settings store wifi ssid volume [] refl refl store-IsOpen
      (lacks-Lacks 0 volume refl)

get_int-set_int_test :
    let (s', r') = set_int settings store volume (negsuc 69) in
    get_int s' r' volume (pos 0) ≡ found (negsuc 69)
get_int-set_int_test =
    get_int-set_int settings store wifi volume (negsuc 69) (pos 0) refl refl store-IsOpen in_range
      no_volume

close_settings-erasures_example :
    let (s', r') = erasures (settings, store) (some ssid ∷ none ∷ []) in
    (close_settings s' r').file ≡ store.file
close_settings-erasures_example =
    close_settings-erasures (some ssid ∷ none ∷ []) settings store refl

volume-IsKey : IsKey volume
unfolding trim trim_right trim_left cons_trimmed
volume-IsKey = record {
  no_equals = lacks-Lacks b'=' volume refl;
  one_line = lacks-Lacks b'\n' volume refl;
  trimmed = refl;
}

volume-IsValue : IsValue volume
unfolding trim trim_right trim_left cons_trimmed
volume-IsValue = record { one_line = lacks-Lacks b'\n' volume refl; trimmed = refl }

-- Two writes under one key, of which the second is lost, and one under a key that there was.
abbrev writes : Writes
writes = (wifi, volume, volume) ∷ (wifi, volume, home) ∷ (wifi, ssid, volume) ∷ []

find-restarted-write_all_example :
    find (init_nv_ram (restarted (nvs_commit (write_all writes store)).1)) (some wifi) volume
    ≡ kept_or_first wifi volume writes (find store (some wifi) volume)
find-restarted-write_all_example =
    find-restarted-write_all wifi volume writes store refl refl store-IsStorable store-IsTable (
      (wifi-IsName, volume-IsKey, volume-IsValue),
      ((wifi-IsName, volume-IsKey, home-IsValue), ((wifi-IsName, ssid-IsKey, volume-IsValue), tt)),
    )

first_kept : kept_or_first wifi volume writes (find store (some wifi) volume) ≡ some volume
unfolding find find_entry lookup text_eq
first_kept = refl

other_name : (text_eq wifi wifi && text_eq ssid volume) ≡ false
unfolding text_eq
other_name = refl

view-restarted-write_test :
    view (
      init_nv_ram
        (restarted (nvs_commit (write wifi ssid home (write wifi volume volume store))).1))
    ≡ view (
        init_nv_ram
          (restarted (nvs_commit (write wifi volume volume (write wifi ssid home store))).1))
view-restarted-write_test =
    view-restarted-write store refl refl wifi ssid home wifi volume volume store-IsStorable
      store-IsTable (wifi-IsName, ssid-IsKey, home-IsValue)
      (wifi-IsName, volume-IsKey, volume-IsValue) other_name
