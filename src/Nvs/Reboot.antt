-- ===== src/Nvs/Reboot.antt =====
-- porting/nvs_flash.cc: a commit, and the start of the next process.
use mathlib.Core.Option.{or_else}
use xiaozhi_pc.Base.{
  ℕ, suc, ◌+◌, ◌-◌, ◌≤◌, ◌≡◌, refl, ap, ◌∙◌, true, false, inl, inr, Option, none, some, [], ◌∷◌,
  ◌++◌, append_assoc, arith, ◌==◌, length, length-append, Bool-cases,
}
use xiaozhi_pc.Base.Text.{Bytes, Lacks}
use xiaozhi_pc.Base.Dict.{lookup}
use xiaozhi_pc.Nvs.Line.{
  find_entry, getline, KvMap, Caches, put, load_line, load_lines, load_file, print_entry,
  print_section, print_file,
}
use xiaozhi_pc.Nvs.File.{
  Lacks-append, getline-Lacks, IsName, IsKey, IsValue, line_of, parse_line-line_of,
}
use xiaozhi_pc.Nvs.Tables.{put_section, put_all, find_entry-put_all, IsTable}
use xiaozhi_pc.Nvs.{NvRam, find, init_nv_ram, nvs_commit, commit_nv_ram}

-- Names, keys and values that one line of the file can hold.
abbrev pub AreEntries : KvMap → Type 0
AreEntries [] = Unit {0}
AreEntries ((k, v) ∷ kv) = IsKey k × IsValue v × AreEntries kv

abbrev pub IsStorable : Caches → Type 0
IsStorable [] = Unit {0}
IsStorable ((s, kv) ∷ c) = IsName s × AreEntries kv × IsStorable c

line_of-Lacks : (x y z : Bytes) → IsName x → IsKey y → IsValue z → Lacks b'\n' (line_of x y z)
line_of-Lacks x y z hx hy hz =
    Lacks-append b'\n' x _ hx.one_line
      (omega arith, Lacks-append b'\n' y _ hy.one_line (omega arith, hz.one_line))

print_entry-line_of :
    (x y z rest : Bytes) → print_entry x y z ++ rest ≡ line_of x y z ++ (b'\n' ∷ rest)
unfolding print_entry
print_entry-line_of x y z rest = simp append_assoc

load_line-line_of :
    (x y z : Bytes) (m : Caches)
    → IsName x
    → IsKey y
    → IsValue z
    → load_line (line_of x y z) m ≡ put x y z m
unfolding load_line
load_line-line_of [] y z m hx hy hz = rw (parse_line-line_of [] y z hx hy hz)
load_line-line_of (c ∷ x) y z m hx hy hz = elim (Bool-cases (c == b'#')) [
  | inl e ↦ absurd (hx.no_comment x (ground arith))
  | inr e ↦ rw (e, parse_line-line_of (c ∷ x) y z hx hy hz)
]

-- One round of the loop on a written line.
load_lines-print_entry :
    (f : ℕ) (x y z rest : Bytes) (m : Caches)
    → IsName x
    → IsKey y
    → IsValue z
    → load_lines (suc f) (some (print_entry x y z ++ rest)) m
      ≡ load_lines f (some rest) (put x y z m)
unfolding load_lines
load_lines-print_entry f x y z rest m hx hy hz =
    rw
      (
        print_entry-line_of x y z rest,
        getline-Lacks b'\n' (line_of x y z) rest (line_of-Lacks x y z hx hy hz),
        load_lines,
      )
      (ap (load_lines f (some rest)) (load_line-line_of x y z m hx hy hz))

load_lines-print_section :
    (f : ℕ) (x rest : Bytes) (kv : KvMap) (m : Caches)
    → IsName x
    → AreEntries kv
    → load_lines (length kv + f) (some (print_section x kv ++ rest)) m
      ≡ load_lines f (some rest) (put_section x kv m)
unfolding print_section put_section
load_lines-print_section f x rest [] m hx h =
    ap (λ (n : ℕ). load_lines n (some rest) m) (omega arith)
load_lines-print_section f x rest ((k, v) ∷ kv) m hx h =
    rounds (omega arith)
    ∙ ap (λ s. load_lines (suc (length kv + f)) (some s) m)
        (append_assoc (print_entry x k v) (print_section x kv) rest)
    ∙ load_lines-print_entry (length kv + f) x k v (print_section x kv ++ rest) m hx h.0 h.1
    ∙ load_lines-print_section f x rest kv (put x k v m) hx h.2
  where
    rounds :
        {i j : ℕ}
        → i ≡ j
        → load_lines i (some (print_section x ((k, v) ∷ kv) ++ rest)) m
          ≡ load_lines j (some (print_section x ((k, v) ∷ kv) ++ rest)) m
    rounds e = ap (λ n. load_lines n (some (print_section x ((k, v) ∷ kv) ++ rest)) m) e

count : Caches → ℕ
count [] = 0
count ((s, kv) ∷ c) = length kv + count c

load_lines_end : (f : ℕ) (m : Caches) → load_lines (suc f) (some []) m ≡ m
unfolding load_lines getline
load_lines_end f m = refl

load_lines-print_file :
    (f : ℕ) (c m : Caches)
    → IsStorable c
    → load_lines (count c + suc f) (some (print_file c)) m ≡ put_all c m
unfolding print_file put_all count
load_lines-print_file f [] m h =
    ap (λ (n : ℕ). load_lines n (some []) m) (omega arith) ∙ load_lines_end f m
load_lines-print_file f ((x, kv) ∷ c) m h =
    ap (λ (n : ℕ). load_lines n (some (print_section x kv ++ print_file c)) m) (omega arith)
    ∙ load_lines-print_section (count c + suc f) x (print_file c) kv m h.0 h.1
    ∙ load_lines-print_file f c (put_section x kv m) h.2

-- The file has at least a byte for each entry, so that the fuel is enough.
length-print_section : (x : Bytes) (kv : KvMap) → length kv ≤ length (print_section x kv)
unfolding print_section print_entry
length-print_section x [] = omega arith
length-print_section x ((k, v) ∷ kv) = omega (
  arith,
  length-append (print_entry x k v) (print_section x kv),
  length-append x (b'.' ∷ k ++ (b'=' ∷ v ++ (b'\n' ∷ []))),
  length-print_section x kv,
)

count-le-length : (c : Caches) → count c ≤ length (print_file c)
unfolding print_file count
count-le-length [] = omega arith
count-le-length ((x, kv) ∷ c) = omega (
  arith,
  length-append (print_section x kv) (print_file c),
  length-print_section x kv,
  count-le-length c,
)

load_file-print_file : (c m : Caches) → IsStorable c → load_file (print_file c) m ≡ put_all c m
unfolding load_file
load_file-print_file c m h =
    ap (λ (n : ℕ). load_lines n (some (print_file c)) m) fuel
    ∙ load_lines-print_file (length (print_file c) - count c) c m h
  where
    fuel : suc (length (print_file c)) ≡ count c + suc (length (print_file c) - count c)
    fuel = omega (arith, count-le-length c)

-- The module as the next process finds it: nothing is read yet, and the file is there.
abbrev pub restarted : NvRam → NvRam
restarted r = record r { inited = false; nv_caches = [] }

or_else_none : (s k : Bytes) (o : Option Bytes) → or_else o (find_entry s k []) ≡ o
unfolding or_else find_entry lookup
or_else_none s k none = refl
or_else_none s k (some v) = refl

-- After a commit that could write, the next process finds under every section and key what was
-- there at the commit, if the names, keys and values are such as the file's lines can hold and each
-- section and key stands once.
pub find-restarted-commit :
    (r : NvRam) (s k : Bytes)
    → r.writable ≡ true
    → IsStorable r.nv_caches
    → IsTable r.nv_caches
    → find (init_nv_ram (restarted (nvs_commit r).1)) (some s) k ≡ find r (some s) k
unfolding find init_nv_ram nvs_commit commit_nv_ram
find-restarted-commit r s k w h u = rw w (
    ap (find_entry s k) (load_file-print_file r.nv_caches [] h)
    ∙ find_entry-put_all s k r.nv_caches [] u
    ∙ or_else_none s k (find_entry s k r.nv_caches))
