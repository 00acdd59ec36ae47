-- ===== src/Board/Restart.antt =====
-- porting/impl/board.cc over settings.cc and nvs_flash.cc: the UUID stays the same.
use mathlib.Core.Option
use xiaozhi_pc.Base.{
  ℕ, ◌/◌, ◌%◌, ◌<◌, ◌≡◌, refl, ap, sym, ◌∙◌, subst, true, false, none, some, [], ◌∷◌, ◌++◌, arith,
  Option-cases,
}
use xiaozhi_pc.Base.Text.{Bytes, Lacks, lacks-Lacks, text_eq_refl}
use xiaozhi_pc.Base.Dict.{emplace}
use xiaozhi_pc.Mqtt.Hex.{digit, print_hex, AreBytes}
use xiaozhi_pc.Nvs.Line.{
  is_blank, trim, trim_left, trim_right, cons_trimmed, get_section, at_section,
}
use xiaozhi_pc.Nvs.File.{IsName, IsKey, IsValue}
use xiaozhi_pc.Nvs.Tables.{IsTable, find_entry-get_section}
use xiaozhi_pc.Nvs.Reboot.{IsStorable, restarted, find-restarted-commit}
use xiaozhi_pc.Nvs.Access.{nvs_open-IsOpen, find-nvs_set_str}
use xiaozhi_pc.Nvs.Kept.{IsStorable-stored, IsTable-stored}
use xiaozhi_pc.Nvs.{NvRam, find, init_nv_ram, nvs_open, nvs_set_str, nvs_commit, modify}
use xiaozhi_pc.Settings.{
  Settings, c_str, strip_nul, open_settings, get_string, set_string, close_settings, written,
}
use xiaozhi_pc.Settings.Values.{HasNoNul, c_str-HasNoNul, strip_nul-HasNoNul, get_string-find}
use xiaozhi_pc.Board.{
  group_1, group_2, group_3, group_4, group_5, generate_uuid, board_ns, uuid_key, keep_uuid,
  start_board,
}
use xiaozhi_pc.Board.Uuid.{
  group_1-AreBytes, group_2-AreBytes, group_3-AreBytes, group_4-AreBytes, group_5-AreBytes,
}

-- Every character stands behind the comma in the ASCII table: none is blank, a line break or NUL.
abbrev AllPlain : Bytes → Type 0
AllPlain [] = Unit {0}
AllPlain (c ∷ cs) = (44 < c) × AllPlain cs

AllPlain-append : (s t : Bytes) → AllPlain s → AllPlain t → AllPlain (s ++ t)
AllPlain-append [] t g h = h
AllPlain-append (c ∷ s) t g h = (g.0, AllPlain-append s t g.1 h)

digit_plain : (n : ℕ) → n < 16 → 44 < digit false n
digit_plain n h = ground arith

print_hex-AllPlain : (bs : Bytes) → AreBytes bs → AllPlain (print_hex false bs)
unfolding print_hex
print_hex-AllPlain [] h = tt
print_hex-AllPlain (b ∷ bs) h = (
  digit_plain (b / 16) (omega arith),
  (digit_plain (b % 16) (omega arith), print_hex-AllPlain bs h.1),
)

HasNoNul-AllPlain : (s : Bytes) → AllPlain s → HasNoNul s
HasNoNul-AllPlain [] h = tt
HasNoNul-AllPlain (c ∷ s) h = (omega (arith, h.0), HasNoNul-AllPlain s h.1)

Lacks-AllPlain : (s : Bytes) → AllPlain s → Lacks b'\n' s
Lacks-AllPlain [] h = tt
Lacks-AllPlain (c ∷ s) h = (omega (arith, h.0), Lacks-AllPlain s h.1)

not_blank : (c : ℕ) → 44 < c → is_blank c ≡ false
not_blank c h = ground arith

trim_right-AllPlain : (s : Bytes) → AllPlain s → trim_right s ≡ s
unfolding trim_right cons_trimmed
trim_right-AllPlain [] h = refl
trim_right-AllPlain (c ∷ []) h = rw (not_blank c h.0)
trim_right-AllPlain (c ∷ d ∷ s) h = rw (trim_right-AllPlain (d ∷ s) h.1, cons_trimmed)

trim-AllPlain : (s : Bytes) → AllPlain s → trim s ≡ s
unfolding trim trim_left
trim-AllPlain [] h = unfold trim_right in refl
trim-AllPlain (c ∷ s) h = rw (not_blank c h.0) (trim_right-AllPlain (c ∷ s) h)

generate_uuid-AllPlain : (e : ℕ → ℕ) → AllPlain (generate_uuid e)
unfolding generate_uuid
generate_uuid-AllPlain e =
    let t4 = b'-' ∷ print_hex false (group_5 e) in
    let t3 = b'-' ∷ (print_hex false (group_4 e) ++ t4) in
    let t2 = b'-' ∷ (print_hex false (group_3 e) ++ t3) in
    let t1 = b'-' ∷ (print_hex false (group_2 e) ++ t2) in
    AllPlain-append (print_hex false (group_1 e)) t1
      (print_hex-AllPlain (group_1 e) (group_1-AreBytes e))
      (
        omega arith,
        AllPlain-append (print_hex false (group_2 e)) t2
            (print_hex-AllPlain (group_2 e) (group_2-AreBytes e))
            (
              omega arith,
              AllPlain-append (print_hex false (group_3 e)) t3
                  (print_hex-AllPlain (group_3 e) (group_3-AreBytes e))
                  (
                    omega arith,
                    AllPlain-append (print_hex false (group_4 e)) t4
                        (print_hex-AllPlain (group_4 e) (group_4-AreBytes e))
                        (omega arith, print_hex-AllPlain (group_5 e) (group_5-AreBytes e)),
                  ),
            ),
      )

uuid-IsValue : (e : ℕ → ℕ) → IsValue (generate_uuid e)
uuid-IsValue e = record {
  one_line = Lacks-AllPlain (generate_uuid e) (generate_uuid-AllPlain e);
  trimmed = trim-AllPlain (generate_uuid e) (generate_uuid-AllPlain e);
}

uuid-HasNoNul : (e : ℕ → ℕ) → HasNoNul (generate_uuid e)
uuid-HasNoNul e = HasNoNul-AllPlain (generate_uuid e) (generate_uuid-AllPlain e)

board_ns-IsName : IsName board_ns
unfolding trim trim_left trim_right cons_trimmed
board_ns-IsName = record {
  no_dot = lacks-Lacks b'.' board_ns refl;
  one_line = lacks-Lacks b'\n' board_ns refl;
  trimmed = refl;
  no_comment = λ rest h. cc;
}

uuid_key-IsKey : IsKey uuid_key
unfolding trim trim_left trim_right cons_trimmed
uuid_key-IsKey = record {
  no_equals = lacks-Lacks b'=' uuid_key refl;
  one_line = lacks-Lacks b'\n' uuid_key refl;
  trimmed = refl;
}

-- The store after the settings are opened, and after the UUID is stored in it.
opened : NvRam → NvRam
opened r = (nvs_open r board_ns).1

stored : (ℕ → ℕ) → NvRam → NvRam
stored e r = (nvs_set_str (some board_ns) uuid_key (generate_uuid e) (opened r)).1

find-opened :
    (r : NvRam) (s k : Bytes) → find (opened r) (some s) k ≡ find (init_nv_ram r) (some s) k
unfolding opened nvs_open find
find-opened r s k = find_entry-get_section s k board_ns (init_nv_ram r).nv_caches

board_settings : Settings
board_settings = record {
  ns = board_ns;
  nvs_handle = some board_ns;
  read_write = true;
  dirty = false;
}

get_string-board :
    (r : NvRam)
    → get_string board_settings (opened r) uuid_key []
      ≡ Option.get_or (Option.map strip_nul (find (init_nv_ram r) (some board_ns) uuid_key)) []
unfolding c_str board_settings
get_string-board r =
    get_string-find board_settings (opened r) board_ns uuid_key [] refl
    ∙ ap (λ o. Option.get_or (Option.map strip_nul o) []) (find-opened r board_ns uuid_key)

start_board-keep_uuid :
    (e : ℕ → ℕ) (r : NvRam) (text : Bytes)
    → get_string board_settings (opened r) uuid_key [] ≡ text
    → start_board e r ≡ keep_uuid e board_settings (opened r) text
unfolding start_board open_settings nvs_open c_str opened board_settings
start_board-keep_uuid e r text h = ap (keep_uuid e board_settings (opened r)) h

keep_uuid-nil :
    (e : ℕ → ℕ) (r : NvRam)
    → keep_uuid e board_settings (opened r) [] ≡ (generate_uuid e, (nvs_commit (stored e r)).1)
unfolding keep_uuid set_string written close_settings stored c_str board_settings nvs_set_str modify
keep_uuid-nil e r = rw (c_str-HasNoNul (generate_uuid e) (uuid-HasNoNul e))

-- A first start: nothing is stored, a UUID is generated, stored and committed.
start_board_first :
    (e : ℕ → ℕ) (r : NvRam)
    → find (init_nv_ram r) (some board_ns) uuid_key ≡ none
    → start_board e r ≡ (generate_uuid e, (nvs_commit (stored e r)).1)
start_board_first e r h =
    start_board-keep_uuid e r [] (get_string-board r ∙ rw h refl) ∙ keep_uuid-nil e r

-- A later start: the stored UUID is taken.
start_board_later :
    (e e' : ℕ → ℕ) (r : NvRam)
    → find (init_nv_ram r) (some board_ns) uuid_key ≡ some (generate_uuid e)
    → (start_board e' r).0 ≡ generate_uuid e
start_board_later e e' r h =
    ap (λ (q : Bytes × NvRam). q.0)
      (start_board-keep_uuid e' r (generate_uuid e)
        (get_string-board r ∙ rw h (strip_nul-HasNoNul (generate_uuid e) (uuid-HasNoNul e))))
    ∙ (unfold keep_uuid generate_uuid in refl)

find-stored :
    (e : ℕ → ℕ) (r : NvRam)
    → find (init_nv_ram r) (some board_ns) uuid_key ≡ none
    → find (stored e r) (some board_ns) uuid_key ≡ some (generate_uuid e)
unfolding stored opened
find-stored e r h =
    find-nvs_set_str (opened r) board_ns board_ns uuid_key uuid_key (generate_uuid e)
      (nvs_open-IsOpen r board_ns)
    ∙ rw (text_eq_refl board_ns, text_eq_refl uuid_key, find-opened r board_ns uuid_key, h) refl

stored-caches :
    (e : ℕ → ℕ) (r : NvRam)
    → (stored e r).nv_caches
      ≡ at_section board_ns
          (emplace uuid_key (generate_uuid e))
          (get_section board_ns (init_nv_ram r).nv_caches)
unfolding stored opened nvs_set_str modify nvs_open
stored-caches e r = refl

stored-writable : (e : ℕ → ℕ) (r : NvRam) → (stored e r).writable ≡ r.writable
unfolding stored opened nvs_set_str modify nvs_open init_nv_ram
stored-writable e r = ground (arith, Option-cases r.file)

-- A start that finds no UUID in the store generates one, and the next process has the same one,
-- whatever its random engine gives, if the file can be written and what the store holds at first is
-- such as the file's lines can hold, each section and key once.
pub start_board-restarted :
    (e e' : ℕ → ℕ) (r : NvRam)
    → r.writable ≡ true
    → find (init_nv_ram r) (some board_ns) uuid_key ≡ none
    → IsStorable (init_nv_ram r).nv_caches
    → IsTable (init_nv_ram r).nv_caches
    → ((start_board e r).0 ≡ generate_uuid e)
      × ((start_board e' (restarted (start_board e r).1)).0 ≡ generate_uuid e)
start_board-restarted e e' r w h storable table =
    let first = start_board_first e r h in
    (
      ap (λ (q : Bytes × NvRam). q.0) first,
      ap (λ (q : Bytes × NvRam). (start_board e' (restarted q.1)).0) first
          ∙ start_board_later e e' (restarted (nvs_commit (stored e r)).1) (
              find-restarted-commit (stored e r) board_ns uuid_key (stored-writable e r ∙ w)
                (subst IsStorable (sym (stored-caches e r)) (
                  IsStorable-stored board_ns uuid_key (generate_uuid e) (init_nv_ram r).nv_caches
                    board_ns-IsName uuid_key-IsKey (uuid-IsValue e) storable))
                (subst IsTable (sym (stored-caches e r)) (
                  IsTable-stored board_ns uuid_key (generate_uuid e) (init_nv_ram r).nv_caches
                    table))
              ∙ find-stored e r h),
    )
