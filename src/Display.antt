-- ===== src/Display.antt =====
-- porting/impl/ui_thread.cc: the sample arrays that the window shows. Both arrays share one write
-- index. A sample is a 16-bit pattern; the arrays keep the length that they are made with.
pub mod Ring
pub mod Window
pub mod Startup
use xiaozhi_pc.Base.{
  ℕ, zero, suc, ◌+◌, ◌-◌, Bool, true, false, List, [], ◌∷◌, ltb, leb, if◌then◌else◌, length, set,
  take, drop,
}

pub record Samples : Type 0 where
  pub array_in : List ℕ
  pub array_out : List ℕ
  pub index : ℕ

-- `memcpy(&array[i], samples, n * sizeof(int16_t))`
unfoldable pub memcpy : List ℕ → ℕ → List ℕ → List ℕ
memcpy array i [] = array
memcpy array i (x ∷ xs) = memcpy (set array i x) (i + 1) xs

-- `if (index >= size) index = 0`
abbrev pub wrap : ℕ → ℕ → ℕ
wrap n i = if leb n i then 0 else i

-- The length of the next block.
abbrev pub block : List ℕ → ℕ → List ℕ → ℕ
block array i samples =
    if ltb (length samples) (length array - i) then length samples else length array - i

-- The loop of `update_sample_display`; each round of it takes at least one sample while the index
-- is in the array.
unfoldable pub copy_loop : ℕ → List ℕ × ℕ → List ℕ → List ℕ × ℕ
copy_loop zero q samples = q
copy_loop (suc fuel) q [] = q
copy_loop (suc fuel) (array, i) (x ∷ xs) =
    let n = block array i (x ∷ xs) in
    copy_loop fuel (memcpy array i (take n (x ∷ xs)), wrap (length array) (i + n)) (drop n (x ∷ xs))

unfoldable pub update_sample_display : Bool → List ℕ → Samples → Samples
unfolding copy_loop
update_sample_display true samples s =
    let (array, i) = copy_loop (length samples) (s.array_in, s.index) samples in
    record s { array_in = array; index = i }
update_sample_display false samples s =
    let (array, i) = copy_loop (length samples) (s.array_out, s.index) samples in
    record s { array_out = array; index = i }
