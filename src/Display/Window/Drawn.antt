-- ===== src/Display/Window/Drawn.antt =====
-- porting/impl/ui_thread.cc: every index that `AudioDisplay` reads is in the array, and every bar that
-- it draws is in its half of the window.
use xiaozhi_pc.Base.{
  ℕ, zero, suc, ◌+◌, ◌-◌, ◌*◌, ◌/◌, ◌%◌, ◌<◌, ◌≤◌, ◌≡◌, refl, Bool, true, false, some, List, [],
  ◌∷◌, ◌++◌, if◌then◌else◌, arith, leb, ltb, ◌==◌, ◌&&◌, length, get_elem?-some, if_cases, ◌||◌,
}
use native.Mathlib.Nat.{mod-eq_of_lt}
use xiaozhi_pc.Base.Int.{ℤ, pos, negsuc, neg, sub_nat, int16, less, sub_int, times, shift_right_15}
use xiaozhi_pc.Display.{Samples}
use xiaozhi_pc.Display.Window.{
  width, Rect, DrawCall, set_draw_color, clear, fill_rect, present, compute_mod, fill_rectangle,
  signs_differ, search_round, search, int_min, delay, start_index, bar, draw_bars, audio_display,
}

-- The rectangle is in the window between the rows `top` and `top + 120`.
pub record IsInside (top : ℕ) (r : Rect) : Type 0 where
  pub row : ℕ
  pub at_row : r.y ≡ pos row
  pub columns : r.x + r.w ≤ width
  pub below_top : top ≤ row
  pub above_bottom : row + r.h ≤ top + 120

-- Every rectangle that is filled is in that half.
abbrev pub AreInside : ℕ → List DrawCall → Type 0
AreInside top [] = Unit {0}
AreInside top (fill_rect r ∷ cs) = IsInside top r × AreInside top cs
AreInside top (_ ∷ cs) = AreInside top cs

search_round-some :
    (array : List ℕ) (x i : ℕ) (q : ℤ × ℕ)
    → x < length array
    → i < length array
    → q.1 < length array
    → (q' : ℤ × ℕ) × (search_round array x i q ≡ some q') × (q'.1 < length array)
unfolding search_round
search_round-some array x i (h, start) lt lt' start_lt =
    let n = length array in
    let idx = (n + x - i) % n in
    let (a, ea) = get_elem?-some array idx (omega arith) in
    let (b, eb) = get_elem?-some array ((idx + 4) % n) (omega arith) in
    let (c, ec) = get_elem?-some array ((idx + 5) % n) (omega arith) in
    let (d, ed) = get_elem?-some array ((idx + 9) % n) (omega arith) in
    let score = sub_int (int16 a) (int16 d) in
    let q' : ℤ × ℕ =
      if less h score && signs_differ (int16 b) (int16 c) then (score, idx) else (h, start) in
    (
      q',
      rw (ea, eb, ec, ed),
      if_cases (λ (p : ℤ × ℕ). p.1 < n) (less h score && signs_differ (int16 b) (int16 c))
          (score, idx) (h, start) (λ t. omega arith) (λ t. start_lt),
    )

search-some :
    (array : List ℕ) (x left i : ℕ) (q : ℤ × ℕ)
    → x < length array
    → i + left ≤ length array
    → q.1 < length array
    → (j : ℕ) × (search array x left i q ≡ some j) × (j < length array)
unfolding search
search-some array x zero i q lt le start_lt = (q.1, refl, start_lt)
search-some array x (suc left) i q lt le start_lt =
    let (q', e, lt') = search_round-some array x i q lt (omega arith) start_lt in
    let (j, e', lt'') = search-some array x left (i + 1) q' lt (omega arith) lt' in
    (j, rw e e', lt'')

sub_below : (k n : ℕ) → k + 1 < n → n - (k + 1) % n < n
sub_below k n h = rw (mod-eq_of_lt h) (omega arith)

compute_mod_lt : (index n : ℕ) → index < n → delay < n → compute_mod (sub_nat index delay) n < n
unfolding compute_mod sub_nat
compute_mod_lt index n lt big =
    if_cases (λ (z : ℤ). compute_mod z n < n) (leb delay index) (pos (index - delay))
      (negsuc (delay - index - 1)) (λ t. omega arith)
      (λ t. sub_below (delay - index - 1) n (omega arith))

start_index-some :
    (on : Bool) (array : List ℕ) (index : ℕ)
    → index < length array
    → delay < length array
    → (j : ℕ) × (start_index on array index ≡ some j) × (j < length array)
unfolding start_index
start_index-some true array index lt big =
    let x = compute_mod (sub_nat index delay) (length array) in
    let x_lt = compute_mod_lt index (length array) lt big in
    search-some array x 1000 0 (int_min, x) x_lt (omega arith) x_lt
start_index-some false array index lt big = (0, refl, omega arith)

-- The height of a bar is not above 54, upwards or downwards.
data IsBar : ℤ → Type 0 where
  upwards : (y : ℕ) → y ≤ 54 → IsBar (pos y)
  downwards : (y : ℕ) → y < 54 → IsBar (negsuc y)

shift-neg : (k : ℕ) → 0 < k → k ≤ 1769472 → IsBar (shift_right_15 (neg k))
unfolding shift_right_15
shift-neg zero h le = absurd (omega arith)
shift-neg (suc k) h le = downwards (k / 32768) (omega arith)

sample_IsBar : (sample : ℕ) → IsBar (shift_right_15 (times (int16 sample) 54))
unfolding int16 times
sample_IsBar sample =
    if_cases (λ (z : ℤ). IsBar (shift_right_15 (times z 54))) (ltb (sample % 65536) 32768)
      (pos (sample % 65536)) (negsuc (65535 - sample % 65536))
      (λ t. unfold shift_right_15 in upwards (sample % 65536 * 54 / 32768) (ground arith))
      (λ t. shift-neg ((65535 - sample % 65536 + 1) * 54) (omega arith) (ground arith))

bar-IsInside : (top x : ℕ) (z : ℤ) → x < width → IsBar z → IsInside top (bar 54 (top + 60) x z)
unfolding bar sub_nat
bar-IsInside top x z lt (upwards y h) = record {
  row = top + 60;
  at_row = refl;
  columns = omega arith;
  below_top = omega arith;
  above_bottom = omega arith;
}
bar-IsInside top x z lt (downwards y h) = record {
  row = top + 60 - (y + 1);
  at_row = ground arith;
  columns = omega arith;
  below_top = omega arith;
  above_bottom = omega arith;
}

AreInside-append :
    (top : ℕ) (cs ds : List DrawCall)
    → AreInside top cs
    → AreInside top ds
    → AreInside top (cs ++ ds)
AreInside-append top [] ds a b = b
AreInside-append top (set_draw_color x y z ∷ cs) ds a b = AreInside-append top cs ds a b
AreInside-append top (clear ∷ cs) ds a b = AreInside-append top cs ds a b
AreInside-append top (present ∷ cs) ds a b = AreInside-append top cs ds a b
AreInside-append top (fill_rect r ∷ cs) ds a b = (a.0, AreInside-append top cs ds a.1 b)

fill_rectangle-AreInside : (top : ℕ) (r : Rect) → IsInside top r → AreInside top (fill_rectangle r)
unfolding fill_rectangle
fill_rectangle-AreInside top r h =
    if_cases (AreInside top) (r.w == 0 || r.h == 0) [] (fill_rect r ∷ []) (λ t. tt) (λ t. (h, tt))

draw_bars-some :
    (top : ℕ) (array : List ℕ) (left x i : ℕ)
    → x + left ≤ width
    → i < length array
    → (cs : List DrawCall) × (draw_bars 54 (top + 60) array left x i ≡ some cs) × AreInside top cs
unfolding draw_bars
draw_bars-some top array zero x i le lt = ([], refl, tt)
draw_bars-some top array (suc left) x i le lt =
    let (sample, e) = get_elem?-some array i lt in
    let (rest, e', a) =
      draw_bars-some top array left (x + 1)
        (if leb (length array) (i + 1) then i + 1 - length array else i + 1) (omega arith)
        (ground arith) in
    let r = bar 54 (top + 60) x (shift_right_15 (times (int16 sample) 54)) in
    (
      fill_rectangle r ++ rest,
      rw (e, e') refl,
      AreInside-append top (fill_rectangle r) rest
          (fill_rectangle-AreInside top r (
            bar-IsInside top x (shift_right_15 (times (int16 sample) 54)) (omega arith)
              (sample_IsBar sample)))
          a,
    )

-- The array that one half of the window shows, and the first row of that half.
abbrev pub half_array : Bool → Samples → List ℕ
half_array input s = if input then s.array_in else s.array_out

abbrev pub half_top : Bool → ℕ
half_top input = if input then 120 else 0

-- When its array has more than 1120 samples and the index is inside, `AudioDisplay` reads inside
-- that array only, whether the output is enabled or not, and every bar that it fills is inside its
-- half of the window, whatever the samples are.
pub audio_display-some :
    (input output_enabled : Bool) (s : Samples)
    → s.index < length (half_array input s)
    → delay < length (half_array input s)
    → (cs : List DrawCall) × (audio_display input output_enabled s ≡ some cs)
      × AreInside (half_top input) cs
unfolding audio_display
audio_display-some true on s lt big =
    let (j, e, lt') = start_index-some on s.array_in s.index lt big in
    let (bars, e', a) = draw_bars-some 120 s.array_in width 0 j (omega arith) lt' in
    (
      set_draw_color 0 0 255 ∷ bars ++ (set_draw_color 0 0 255 ∷ []),
      rw (e, e') refl,
      AreInside-append 120 bars (set_draw_color 0 0 255 ∷ []) a tt,
    )
audio_display-some false on s lt big =
    let (j, e, lt') = start_index-some on s.array_out s.index lt big in
    let (bars, e', a) = draw_bars-some 0 s.array_out width 0 j (omega arith) lt' in
    (
      set_draw_color 255 255 255 ∷ bars ++ (set_draw_color 0 0 255 ∷ []),
      rw (e, e') refl,
      AreInside-append 0 bars (set_draw_color 0 0 255 ∷ []) a tt,
    )
