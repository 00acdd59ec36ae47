-- ===== src/Settings/Values.antt =====
-- settings.cc: what the getters return after the setters.
use mathlib.Core.Option
use xiaozhi_pc.Base.{
  true, false, ◌≡◌, ◌≢◌, refl, ap, ◌∙◌, Option, none, some, [], ◌∷◌, arith, Option-cases,
}
use xiaozhi_pc.Base.Text.{Bytes, text_eq_refl}
use xiaozhi_pc.Base.Int.{ℤ, to_string, atoi, atoi-to_string}
use xiaozhi_pc.Nvs.{
  NvRam, Handle, find, Status, found, nvs_get_str, nvs_get_i32, nvs_set_str, nvs_set_i32, modify,
  is_int32, nvs_erase_key, nvs_erase_all,
}
use xiaozhi_pc.Nvs.Access.{IsOpen, find-nvs_set_str}
use xiaozhi_pc.Nvs.Line.{KvMap}
use xiaozhi_pc.Base.{List, if_cases, ◌==◌}
use xiaozhi_pc.Base.Dict.{erase}
use xiaozhi_pc.Settings.{
  Settings, c_str, strip_nul, get_string, set_string, get_int, set_int, erase_key, erase_all,
  close_settings, written, filled, read_value, cons_stripped,
}

abbrev pub HasNoNul : Bytes → Type 0
HasNoNul [] = Unit {0}
HasNoNul (c ∷ cs) = (c ≢ 0) × HasNoNul cs

pub c_str-HasNoNul : (s : Bytes) → HasNoNul s → c_str s ≡ s
unfolding c_str
c_str-HasNoNul [] h = refl
c_str-HasNoNul (c ∷ s) h = ground (arith, c_str-HasNoNul s h.1)

pub HasNoNul-c_str : (s : Bytes) → HasNoNul (c_str s)
unfolding c_str
HasNoNul-c_str [] = tt
HasNoNul-c_str (c ∷ s) =
    if_cases HasNoNul (c == 0) [] (c ∷ c_str s) (λ t. tt) (λ t. (ground arith, HasNoNul-c_str s))

pub strip_nul-HasNoNul : (s : Bytes) → HasNoNul s → strip_nul s ≡ s
unfolding strip_nul cons_stripped
strip_nul-HasNoNul [] h = refl
strip_nul-HasNoNul (c ∷ []) h = ground arith
strip_nul-HasNoNul (c ∷ d ∷ s) h = rw (strip_nul-HasNoNul (d ∷ s) h.1, cons_stripped)

-- `GetString` of an object with a handle returns the stored value without NULs at its end, or the
-- default.
pub get_string-find :
    (s : Settings) (r : NvRam) (ns key default_value : Bytes)
    → s.nvs_handle ≡ some ns
    → get_string s r key default_value
      ≡ Option.get_or (Option.map strip_nul (find r (some ns) (c_str key))) default_value
unfolding get_string read_value filled nvs_get_str
get_string-find s r ns key d h = ground (arith, Option-cases (find r (some ns) (c_str key)))

pub written_lem :
    (s : Settings) (r : NvRam) (q : Status × NvRam)
    → s.read_write ≡ true
    → written s r q ≡ (record s { dirty = true }, q.1)
unfolding written
written_lem s r (st, r') w = simp w

get_int-find :
    (s : Settings) (r : NvRam) (ns key text : Bytes) (default_value : ℤ)
    → s.nvs_handle ≡ some ns
    → find r (some ns) (c_str key) ≡ some text
    → is_int32 (atoi text) ≡ true
    → get_int s r key default_value ≡ found (atoi text)
unfolding get_int nvs_get_i32
get_int-find s r ns key text d h e range = ground arith

module _ (s : Settings) (r : NvRam) (ns key : Bytes) where
  -- For an object that is open for writing on a section that is there: under a key that had no
  -- value, the NUL-free text that `SetString` stores is what `GetString` returns; under a key that
  -- had one, `GetString` still returns the old value.
  pub get_string-set_string :
      (value default_value : Bytes)
      → s.nvs_handle ≡ some ns
      → s.read_write ≡ true
      → IsOpen r ns
      → HasNoNul value
      → let (s', r') = set_string s r key value in
        get_string s' r' key default_value
        ≡ Option.get_or (Option.map strip_nul (find r (some ns) (c_str key))) value
  unfolding set_string
  get_string-set_string value d h w o nul =
      rw (written_lem s r (nvs_set_str s.nvs_handle (c_str key) (c_str value) r) w) (
        get_string-find (record s { dirty = true })
          (nvs_set_str s.nvs_handle (c_str key) (c_str value) r).1 ns key d h
        ∙ rw (h, c_str-HasNoNul value nul)
            (rw
              (
                find-nvs_set_str r ns ns (c_str key) (c_str key) value o,
                text_eq_refl ns,
                text_eq_refl (c_str key),
              )
              (stored (find r (some ns) (c_str key)))))
    where
      stored :
          (o : Option Bytes)
          → Option.get_or (Option.map strip_nul (some (Option.get_or o value))) d
            ≡ Option.get_or (Option.map strip_nul o) value
      stored none = strip_nul-HasNoNul value nul
      stored (some old) = refl

  -- For an object that is open for writing on a section that is there: an `int32_t` that `SetInt`
  -- stores under a key that had no value is what `GetInt` returns.
  pub get_int-set_int :
      (i default_value : ℤ)
      → s.nvs_handle ≡ some ns
      → s.read_write ≡ true
      → IsOpen r ns
      → is_int32 i ≡ true
      → find r (some ns) (c_str key) ≡ none
      → let (s', r') = set_int s r key i in get_int s' r' key default_value ≡ found i
  unfolding set_int
  get_int-set_int i d h w o range free =
      rw (written_lem s r (nvs_set_i32 s.nvs_handle (c_str key) i r) w) (
        get_int-find (record s { dirty = true }) (nvs_set_i32 s.nvs_handle (c_str key) i r).1 ns key
          (to_string i) d h at_key (rw (atoi-to_string i) range)
        ∙ ap found (atoi-to_string i))
    where
      at_key :
          find (nvs_set_i32 s.nvs_handle (c_str key) i r).1 (some ns) (c_str key)
          ≡ some (to_string i)
      at_key = rw h (
          unfold nvs_set_i32 nvs_set_str in
          (find-nvs_set_str r ns ns (c_str key) (c_str key) (to_string i) o
            ∙ rw (free, text_eq_refl ns, text_eq_refl (c_str key))))

-- Calls of `EraseKey`, or of `EraseAll` for `none`, one after another.
abbrev erase_one : Settings × NvRam → Option Bytes → Settings × NvRam
erase_one (s, r) none = erase_all s r
erase_one (s, r) (some key) = erase_key s r key

pub erasures : Settings × NvRam → List (Option Bytes) → Settings × NvRam
erasures q [] = q
erasures q (c ∷ cs) = erasures (erase_one q c) cs

modify-file : (h : Handle) (f : KvMap → KvMap) (r : NvRam) → (modify h f r).1.file ≡ r.file
unfolding modify
modify-file none f r = refl
modify-file (some ns) f r = refl

erase_one_keeps :
    (s : Settings) (r : NvRam) (c : Option Bytes)
    → ((erase_one (s, r) c).0 ≡ s) × ((erase_one (s, r) c).1.file ≡ r.file)
unfolding erase_key erase_all nvs_erase_key nvs_erase_all
erase_one_keeps s r none = ground (arith, modify-file s.nvs_handle (λ _. []) r)
erase_one_keeps s r (some key) = ground (arith, modify-file s.nvs_handle (erase (c_str key)) r)

close_settings_clean : (s : Settings) (r : NvRam) → s.dirty ≡ false → close_settings s r ≡ r
unfolding close_settings
close_settings_clean s r clean = ground arith

-- Erasing marks nothing dirty: an object that was not dirty and only erased, however often, leaves
-- the file as it was when it goes.
pub close_settings-erasures :
    (cs : List (Option Bytes)) (s : Settings) (r : NvRam)
    → s.dirty ≡ false
    → let (s', r') = erasures (s, r) cs in (close_settings s' r').file ≡ r.file
unfolding erasures
close_settings-erasures [] s r clean = rw (close_settings_clean s r clean)
close_settings-erasures (c ∷ cs) s r clean =
    let (same, file) = erase_one_keeps s r c in
    close_settings-erasures cs (erase_one (s, r) c).0 (erase_one (s, r) c).1 (rw same clean) ∙ file
