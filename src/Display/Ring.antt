-- ===== src/Display/Ring.antt =====
-- porting/impl/ui_thread.cc: `update_sample_display` writes sample by sample round the array.
use xiaozhi_pc.Base.{
  ℕ, zero, suc, ◌+◌, ◌-◌, ◌≤◌, ◌<◌, ◌≡◌, refl, ap, sym, ◌∙◌, Bool, true, false, List, [], ◌∷◌, ◌++◌,
  arith, length, set, take, drop, length-set, length-take,
}
use mathlib.Core.Path.{ap₂}
use xiaozhi_pc.Display.{Samples, memcpy, wrap, block, copy_loop, update_sample_display}

-- The specification: each sample goes to the index, which then moves on by one, round the array.
unfoldable pub push_sample : List ℕ × ℕ → ℕ → List ℕ × ℕ
push_sample (array, i) x = (set array i x, wrap (length array) (i + 1))

unfoldable pub push_samples : List ℕ × ℕ → List ℕ → List ℕ × ℕ
push_samples q [] = q
push_samples q (x ∷ xs) = push_samples (push_sample q x) xs

push_samples-append :
    (q : List ℕ × ℕ) (xs ys : List ℕ)
    → push_samples q (xs ++ ys) ≡ push_samples (push_samples q xs) ys
unfolding push_samples
push_samples-append q [] ys = refl
push_samples-append q (x ∷ xs) ys = push_samples-append (push_sample q x) xs ys

-- A block that ends at the end of the array at the latest.
push_samples-memcpy :
    (array : List ℕ) (i x : ℕ) (xs : List ℕ)
    → i + length (x ∷ xs) ≤ length array
    → push_samples (array, i) (x ∷ xs)
      ≡ (memcpy array i (x ∷ xs), wrap (length array) (i + length (x ∷ xs)))
unfolding push_samples push_sample memcpy
push_samples-memcpy array i x [] h =
    ap (λ (k : ℕ). let q : List ℕ × ℕ = (set array i x, wrap (length array) k) in q) (omega arith)
push_samples-memcpy array i x (y ∷ ys) h =
    ap (λ (k : ℕ). push_samples (set array i x, k) (y ∷ ys)) (ground arith)
    ∙ push_samples-memcpy (set array i x) (i + 1) y ys (omega (arith, length-set array i x))
    ∙ ap₂
        (λ (n k : ℕ). let q : List ℕ × ℕ = (memcpy (set array i x) (i + 1) (y ∷ ys), wrap n k) in q)
        (length-set array i x) (omega arith)

length-memcpy : (array : List ℕ) (i : ℕ) (xs : List ℕ) → length (memcpy array i xs) ≡ length array
unfolding memcpy
length-memcpy array i [] = refl
length-memcpy array i (x ∷ xs) = length-memcpy (set array i x) (i + 1) xs ∙ length-set array i x

take-append-drop : (n : ℕ) (xs : List ℕ) → take n xs ++ drop n xs ≡ xs
take-append-drop zero xs = refl
take-append-drop (suc n) [] = refl
take-append-drop (suc n) (x ∷ xs) = ap (◌∷◌ x) (take-append-drop n xs)

length-drop : (n : ℕ) (xs : List ℕ) → length (drop n xs) ≡ length xs - n
length-drop zero xs = omega arith
length-drop (suc n) [] = omega arith
length-drop (suc n) (x ∷ xs) = omega (arith, length-drop n xs)

-- One round writes the block as the specification does.
push_samples_block :
    (n : ℕ) (array : List ℕ) (i x : ℕ) (xs : List ℕ)
    → 0 < n
    → n ≤ length (x ∷ xs)
    → i + n ≤ length array
    → push_samples (array, i) (take n (x ∷ xs))
      ≡ (memcpy array i (take n (x ∷ xs)), wrap (length array) (i + n))
push_samples_block zero array i x xs pos le fits = absurd (omega arith)
push_samples_block (suc n) array i x xs pos le fits =
    push_samples-memcpy array i x (take n xs) (omega (arith, length-take n xs (omega arith)))
    ∙ ap
        (λ (k : ℕ).
          let q : List ℕ × ℕ = (memcpy array i (x ∷ take n xs), wrap (length array) (i + suc k)) in
          q)
        (length-take n xs (omega arith))

-- With a round for each sample the loop comes to its end, and has done what the specification says.
copy_loop-push_samples :
    (fuel : ℕ) (array : List ℕ) (i : ℕ) (samples : List ℕ)
    → length samples ≤ fuel
    → i < length array
    → copy_loop fuel (array, i) samples ≡ push_samples (array, i) samples
unfolding copy_loop
copy_loop-push_samples zero array i [] h lt = unfold push_samples in refl
copy_loop-push_samples zero array i (x ∷ xs) h lt = absurd (omega arith)
copy_loop-push_samples (suc fuel) array i [] h lt = unfold push_samples in refl
copy_loop-push_samples (suc fuel) array i (x ∷ xs) h lt =
    copy_loop-push_samples fuel (memcpy array i (take n (x ∷ xs))) (wrap (length array) (i + n))
      (drop n (x ∷ xs)) (omega (arith, length-drop n (x ∷ xs), positive))
      (ground (arith, length-memcpy array i (take n (x ∷ xs)), fits))
    ∙ ap (λ q. push_samples q (drop n (x ∷ xs)))
        (sym (push_samples_block n array i x xs positive short fits))
    ∙ sym (push_samples-append (array, i) (take n (x ∷ xs)) (drop n (x ∷ xs)))
    ∙ ap (push_samples (array, i)) (take-append-drop n (x ∷ xs))
  where
    n : ℕ
    n = block array i (x ∷ xs)

    positive : 0 < n
    positive = ground arith

    short : n ≤ length (x ∷ xs)
    short = ground arith

    fits : i + n ≤ length array
    fits = ground arith

push_samples-index :
    (array : List ℕ) (i : ℕ) (samples : List ℕ)
    → i < length array
    → (length (push_samples (array, i) samples).0 ≡ length array)
      × ((push_samples (array, i) samples).1 < length array)
unfolding push_samples push_sample
push_samples-index array i [] lt = (refl, lt)
push_samples-index array i (x ∷ xs) lt = ground (
  arith,
  length-set array i x,
  push_samples-index (set array i x) (wrap (length array) (i + 1)) xs,
)

-- `update_sample_display` on the input side, with the index inside the array, does what writing the
-- samples one by one round the array does, leaves the other array alone, and leaves the index
-- inside and the array as long as it was.
pub update_sample_display_in :
    (samples : List ℕ) (s : Samples)
    → s.index < length s.array_in
    → let t = update_sample_display true samples s in
      ((t.array_in, t.index) ≡ push_samples (s.array_in, s.index) samples)
      × (t.array_out ≡ s.array_out)
      × (t.index < length t.array_in)
      × (length t.array_in ≡ length s.array_in)
unfolding update_sample_display
update_sample_display_in samples s lt =
    let e = copy_loop-push_samples (length samples) s.array_in s.index samples (omega arith) lt in
    let (len, index) = push_samples-index s.array_in s.index samples lt in
    (e, refl, rw e (omega (arith, len)), rw e len)

-- Both arrays are as long, and the index is inside them.
pub record IsReady (n : ℕ) (s : Samples) : Type 0 where
  pub in_length : length s.array_in ≡ n
  pub out_length : length s.array_out ≡ n
  pub inside : s.index < n

length-copy_loop :
    (array : List ℕ) (i n : ℕ) (samples : List ℕ)
    → length array ≡ n
    → i < n
    → (length (copy_loop (length samples) (array, i) samples).0 ≡ n)
      × ((copy_loop (length samples) (array, i) samples).1 < n)
length-copy_loop array i n samples len lt =
    let e =
      copy_loop-push_samples (length samples) array i samples (omega arith) (omega (arith, len)) in
    let (len', index) = push_samples-index array i samples (omega (arith, len)) in
    (rw e (len' ∙ len), rw e (omega (arith, index, len)))

pub update_sample_display-IsReady :
    (input : Bool) (samples : List ℕ) (n : ℕ) (s : Samples)
    → IsReady n s
    → IsReady n (update_sample_display input samples s)
unfolding update_sample_display
update_sample_display-IsReady true samples n s v =
    let (len, index) = length-copy_loop s.array_in s.index n samples v.in_length v.inside in
    record { in_length = len; out_length = v.out_length; inside = index }
update_sample_display-IsReady false samples n s v =
    let (len, index) = length-copy_loop s.array_out s.index n samples v.out_length v.inside in
    record { in_length = v.in_length; out_length = len; inside = index }
