-- ===== src/Nvs/Line.antt =====
-- porting/nvs_flash.cc: `parseLine` with the stream operations that it uses, and the reading of
-- one line into the tables. A moved-from token, which the third `getline` leaves alone when the
-- stream has ended, is taken to be empty.
use xiaozhi_pc.Base.{
  ℕ, zero, suc, length, Bool, ◌||◌, Option, none, some, [], ◌∷◌, ◌++◌, ◌==◌, if◌then◌else◌,
}
use xiaozhi_pc.Base.Text.{Bytes, text_eq}
use xiaozhi_pc.Base.Dict.{Dict, lookup, insert, emplace}

-- What is left of a stream; `none` when its end has been met.
abbrev pub Stream : Type 0
Stream = Option Bytes

-- The token up to the delimiter, which is taken off, or up to the end.
unfoldable pub split_at : ℕ → Bytes → Bytes × Stream
split_at d [] = ([], none)
split_at d (c ∷ cs) =
    let (token, rest) = split_at d cs in if c == d then ([], some cs) else (c ∷ token, rest)

-- `std::getline(stream, token, d)`; it fails when it can take nothing.
unfoldable pub getline : ℕ → Stream → Option (Bytes × Stream)
getline d none = none
getline d (some []) = none
getline d (some (c ∷ cs)) = some (split_at d (c ∷ cs))

abbrev pub is_blank : ℕ → Bool
is_blank c = c == b' ' || c == b'\t'

unfoldable pub trim_left : Bytes → Bytes
trim_left [] = []
trim_left (c ∷ cs) = if is_blank c then trim_left cs else c ∷ cs

-- `c` in front of a trimmed text.
unfoldable pub cons_trimmed : ℕ → Bytes → Bytes
cons_trimmed c [] = if is_blank c then [] else c ∷ []
cons_trimmed c (d ∷ ds) = c ∷ d ∷ ds

unfoldable pub trim_right : Bytes → Bytes
trim_right [] = []
trim_right (c ∷ cs) = cons_trimmed c (trim_right cs)

unfoldable pub trim : Bytes → Bytes
trim s = trim_right (trim_left s)

-- The third token is read whether or not there is one.
unfoldable pub last_token : Stream → Bytes
last_token s = elim (getline b'\n' s) [ none ↦ [] | some (token, _) ↦ token ]

unfoldable pub parse_line : Bytes → Option (Bytes × Bytes × Bytes)
parse_line line = elim (getline b'.' (some line)) [
  | none ↦ none
  | some (x, s) ↦ elim (getline b'=' s) [
    | none ↦ none
    | some (y, s') ↦ some (trim x, trim y, trim (last_token s'))
  ]
]

abbrev pub KvMap : Type 0
KvMap = Dict Bytes

-- `nv_caches`
abbrev pub Caches : Type 0
Caches = Dict KvMap

-- The table after `getSection(ns)`, which adds an empty section where there is none.
unfoldable pub get_section : Bytes → Caches → Caches
get_section ns = emplace ns []

-- A change made through the pointer that `getSection` returns.
unfoldable pub at_section : Bytes → (KvMap → KvMap) → Caches → Caches
at_section ns f [] = []
at_section ns f ((j, sec) ∷ m) =
    if text_eq j ns then (j, f sec) ∷ m else (j, sec) ∷ at_section ns f m

-- `(*getSection(x))[y] = z`
unfoldable pub put : Bytes → Bytes → Bytes → Caches → Caches
put x y z m = at_section x (insert y z) (get_section x m)

abbrev pub in_section : Bytes → Option KvMap → Option Bytes
in_section k none = none
in_section k (some sec) = lookup k sec

-- The value of a key of a section.
unfoldable pub find_entry : Bytes → Bytes → Caches → Option Bytes
find_entry s k m = in_section k (lookup s m)

-- The body of the loop of `initNvRam`.
unfoldable pub load_line : Bytes → Caches → Caches
load_line [] m = m
load_line (c ∷ cs) m =
    if c == b'#' then m else elim (parse_line (c ∷ cs)) [ none ↦ m | some (x, y, z) ↦ put x y z m ]

-- The loop of `initNvRam`; each round takes at least one byte off the stream.
unfoldable pub load_lines : ℕ → Stream → Caches → Caches
load_lines zero s m = m
load_lines (suc fuel) s m = elim (getline b'\n' s) [
  | none ↦ m
  | some (line, s') ↦ load_lines fuel s' (load_line line m)
]

unfoldable pub load_file : Bytes → Caches → Caches
load_file text m = load_lines (suc (length text)) (some text) m

-- One line of `commitNvRam`.
unfoldable pub print_entry : Bytes → Bytes → Bytes → Bytes
print_entry sec key value = sec ++ (b'.' ∷ key ++ (b'=' ∷ value ++ (b'\n' ∷ [])))

unfoldable pub print_section : Bytes → KvMap → Bytes
print_section sec [] = []
print_section sec ((key, value) ∷ m) = print_entry sec key value ++ print_section sec m

unfoldable pub print_file : Caches → Bytes
print_file [] = []
print_file ((sec, m) ∷ rest) = print_section sec m ++ print_file rest
