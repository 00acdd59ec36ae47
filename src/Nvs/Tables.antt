-- ===== src/Nvs/Tables.antt =====
-- porting/nvs_flash.cc: the two-level table seen as a function from section and key to value.
use mathlib.Core.Option.{or_else}
use mathlib.Core.Option
use xiaozhi_pc.Base.{
  ◌≡◌, refl, ◌∙◌, ◌&&◌, inl, inr, none, some, [], ◌∷◌, arith, if◌then◌else◌, Option-cases,
}
use xiaozhi_pc.Base.Text.{Bytes, text_eq, text_eq_iff}
use xiaozhi_pc.Base.Dict.{
  Dict, lookup, insert, emplace, NodupKeys, lookup-insert, lookup-emplace-none, emplace-some,
}
use xiaozhi_pc.Nvs.Line.{find_entry, KvMap, Caches, get_section, at_section, put}

pub lookup-emplace {ℓ} :
    {V : Type ℓ} (j k : Bytes) (v : V) (m : Dict V)
    → lookup j (emplace k v m)
      ≡ (if text_eq k j then some (Option.get_or (lookup k m) v) else lookup j m)
lookup-emplace j k v m = elim (Option-cases (lookup k m)) [
  | inl e ↦ rw e (lookup-emplace-none j k v m e)
  | inr (old, e) ↦ rw (emplace-some k v m old e, e) (ground (arith, text_eq_iff k j))
]

pub lookup-at_section :
    (s x : Bytes) (f : KvMap → KvMap) (m : Caches)
    → lookup s (at_section x f m) ≡ (if text_eq x s then Option.map f (lookup s m) else lookup s m)
unfolding lookup at_section
lookup-at_section s x f [] = ground arith
lookup-at_section s x f ((j, sec) ∷ m) =
    ground (arith, text_eq_iff j x, text_eq_iff j s, text_eq_iff x s, lookup-at_section s x f m)

-- Opening a section adds no entry.
pub find_entry-get_section :
    (s k x : Bytes) (m : Caches) → find_entry s k (get_section x m) ≡ find_entry s k m
unfolding find_entry get_section lookup
find_entry-get_section s k x m =
    ground (arith, lookup-emplace s x [] m, text_eq_iff x s, Option-cases (lookup x m))

-- `(*getSection(x))[y] = z` sets that entry and no other.
find_entry-put :
    (s k x y z : Bytes) (m : Caches)
    → find_entry s k (put x y z m)
      ≡ (if text_eq x s && text_eq y k then some z else find_entry s k m)
unfolding find_entry put get_section lookup
find_entry-put s k x y z m =
    rw (lookup-at_section s x (insert y z) (emplace x [] m), lookup-emplace s x [] m)
      (elim (Option-cases (lookup x m)) [
        | inl e ↦ ground (arith, text_eq_iff x s, lookup-insert k y z [])
        | inr (sec, e) ↦ ground (arith, text_eq_iff x s, lookup-insert k y z sec)
      ])

-- Every entry of a section, and of a table, added to another table.
unfoldable pub put_section : Bytes → KvMap → Caches → Caches
put_section s [] m = m
put_section s ((k, v) ∷ kv) m = put_section s kv (put s k v m)

unfoldable pub put_all : Caches → Caches → Caches
put_all [] m = m
put_all ((s, kv) ∷ c) m = put_all c (put_section s kv m)

find_entry-put_section :
    (s k x : Bytes) (kv : KvMap) (m : Caches)
    → NodupKeys kv
    → find_entry s k (put_section x kv m)
      ≡ (if text_eq x s then or_else (lookup k kv) (find_entry s k m) else find_entry s k m)
unfolding put_section lookup or_else
find_entry-put_section s k x [] m u = ground arith
find_entry-put_section s k x ((j, v) ∷ kv) m u =
    find_entry-put_section s k x kv (put x j v m) u.1
    ∙ ground (arith, find_entry-put s k x j v m, text_eq_iff j k)

-- Sections and keys stand once each.
abbrev pub IsTable : Caches → Type 0
IsTable [] = Unit {0}
IsTable ((s, kv) ∷ c) = (lookup s c ≡ none) × NodupKeys kv × IsTable c

pub find_entry-put_all :
    (s k : Bytes) (c m : Caches)
    → IsTable c
    → find_entry s k (put_all c m) ≡ or_else (find_entry s k c) (find_entry s k m)
unfolding put_all find_entry lookup or_else
find_entry-put_all s k [] m u = refl
find_entry-put_all s k ((x, kv) ∷ c) m u =
    find_entry-put_all s k c (put_section x kv m) u.2
    ∙ ground (arith, find_entry-put_section s k x kv m u.1, text_eq_iff x s)
