-- ===== src/Nvs/File.antt =====
-- porting/nvs_flash.cc: what `initNvRam` reads of the file that `commitNvRam` wrote.
use xiaozhi_pc.Base.{ℕ, ◌≢◌, ◌≡◌, refl, ap, none, some, [], ◌∷◌, ◌++◌, arith}
use xiaozhi_pc.Base.Text.{Bytes, Lacks}
use xiaozhi_pc.Nvs.Line.{split_at, getline, trim, last_token, parse_line}

pub Lacks-append : (d : ℕ) (s t : Bytes) → Lacks d s → Lacks d t → Lacks d (s ++ t)
Lacks-append d [] t h k = k
Lacks-append d (c ∷ s) t h k = (h.0, Lacks-append d s t h.1 k)

split_at-Lacks : (d : ℕ) (t r : Bytes) → Lacks d t → split_at d (t ++ (d ∷ r)) ≡ (t, some r)
unfolding split_at
split_at-Lacks d [] r h = ground arith
split_at-Lacks d (c ∷ t) r h = ground (arith, split_at-Lacks d t r h.1)

split_at_all : (d : ℕ) (t : Bytes) → Lacks d t → split_at d t ≡ (t, none)
unfolding split_at
split_at_all d [] h = refl
split_at_all d (c ∷ t) h = ground (arith, split_at_all d t h.1)

pub getline-Lacks :
    (d : ℕ) (t r : Bytes) → Lacks d t → getline d (some (t ++ (d ∷ r))) ≡ some (t, some r)
unfolding getline
getline-Lacks d [] r h = ap some (split_at-Lacks d [] r h)
getline-Lacks d (c ∷ t) r h = ap some (split_at-Lacks d (c ∷ t) r h)

last_token_all : (z : Bytes) → Lacks b'\n' z → last_token (some z) ≡ z
unfolding last_token getline
last_token_all [] h = refl
last_token_all (c ∷ z) h = rw (split_at_all b'\n' (c ∷ z) h, last_token)

-- A section's name that the file can hold.
pub record IsName (s : Bytes) : Type 0 where
  pub no_dot : Lacks b'.' s
  pub one_line : Lacks b'\n' s
  pub trimmed : trim s ≡ s
  pub no_comment : (rest : Bytes) → s ≢ b'#' ∷ rest

pub record IsKey (k : Bytes) : Type 0 where
  pub no_equals : Lacks b'=' k
  pub one_line : Lacks b'\n' k
  pub trimmed : trim k ≡ k

pub record IsValue (v : Bytes) : Type 0 where
  pub one_line : Lacks b'\n' v
  pub trimmed : trim v ≡ v

abbrev pub line_of : Bytes → Bytes → Bytes → Bytes
line_of x y z = x ++ (b'.' ∷ y ++ (b'=' ∷ z))

-- `parseLine` reads back a line of the form that `commitNvRam` writes, when the name, the key and
-- the value are such as a line can hold.
pub parse_line-line_of :
    (x y z : Bytes) → IsName x → IsKey y → IsValue z → parse_line (line_of x y z) ≡ some (x, y, z)
unfolding parse_line
parse_line-line_of x y z hx hy hz =
    rw (getline-Lacks b'.' x (y ++ (b'=' ∷ z)) hx.no_dot, parse_line)
      (rw (
        getline-Lacks b'=' y z hy.no_equals,
        last_token_all z hz.one_line,
        hx.trimmed,
        hy.trimmed,
        hz.trimmed,
      ))
