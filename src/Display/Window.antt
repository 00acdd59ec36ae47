-- ===== src/Display/Window.antt =====
-- porting/impl/ui_thread.cc: what the window draws, and the loop of its thread. An access to a vector
-- outside its bounds is `none`.
pub mod Drawn
pub mod Trigger
use xiaozhi_pc.Base.{
  ℕ, zero, suc, ◌+◌, ◌-◌, ◌*◌, ◌/◌, ◌%◌, Bool, true, false, not, ◌&&◌, ◌||◌, Option, some, List, [],
  ◌∷◌, ◌++◌, if◌then◌else◌, leb, ◌==◌, length, get_elem?, ◌>>=◌,
}
use xiaozhi_pc.Base.Int.{
  ℤ, pos, negsuc, sub_nat, int16, less, sub_int, times, shift_right_15, is_negative,
}
use xiaozhi_pc.Display.{Samples}

abbrev pub width : ℕ
width = 320

abbrev pub height : ℕ
height = 240

abbrev pub audio_out_buf_size : ℕ
audio_out_buf_size = 960

pub record Rect : Type 0 where
  pub x : ℕ
  pub y : ℤ
  pub w : ℕ
  pub h : ℕ

pub data DrawCall : Type 0 where
  set_draw_color : ℕ → ℕ → ℕ → DrawCall
  clear : DrawCall
  fill_rect : Rect → DrawCall
  present : DrawCall

-- `a % b` in C has the sign of `a`.
unfoldable pub compute_mod : ℤ → ℕ → ℕ
compute_mod (pos n) b = n % b
compute_mod (negsuc n) b = b - (n + 1) % b

unfoldable pub fill_rectangle : Rect → List DrawCall
fill_rectangle r = if r.w == 0 || r.h == 0 then [] else fill_rect r ∷ []

-- `(b ^ c) < 0`
abbrev pub signs_differ : ℤ → ℤ → Bool
signs_differ b c = if is_negative b then not (is_negative c) else is_negative c

-- One round of the search: the best score and where it was found.
unfoldable pub search_round : List ℕ → ℕ → ℕ → ℤ × ℕ → Option (ℤ × ℕ)
unfolding int16 less sub_int
search_round array x i (h, i_start) = do
  let idx = (length array + x - i) % length array
  a ← get_elem? array idx
  b ← get_elem? array ((idx + 4) % length array)
  c ← get_elem? array ((idx + 5) % length array)
  d ← get_elem? array ((idx + 9) % length array)
  let score = sub_int (int16 a) (int16 d)
  some (if less h score && signs_differ (int16 b) (int16 c) then (score, idx) else (h, i_start))

-- `for (i = 0; i < 1000; i += channels)`, with the rounds that are left
unfoldable pub search : List ℕ → ℕ → ℕ → ℕ → ℤ × ℕ → Option ℕ
unfolding search_round
search array x zero i q = some (q.1)
search array x (suc left) i q = do q' ← search_round array x i q; search array x left (i + 1) q'

-- `INT_MIN`
abbrev pub int_min : ℤ
int_min = negsuc 2147483647

-- The samples behind the index: `AUDIO_OUT_BUF_SIZE / n` and two widths.
abbrev pub delay : ℕ
delay = audio_out_buf_size / 2 + 2 * width

-- Where the drawing starts.
unfoldable pub start_index : Bool → List ℕ → ℕ → Option ℕ
unfolding compute_mod search sub_nat
start_index true array index =
    let x = compute_mod (sub_nat index delay) (length array) in search array x 1000 0 (int_min, x)
start_index false array index = some 0

-- The bar of a sample at a column, about the line `y1`; `h2` is the height of a full one.
unfoldable pub bar : ℕ → ℕ → ℕ → ℤ → Rect
unfolding sub_nat
bar h2 y1 x (pos y) = record { x = x; y = pos y1; w = 1; h = y }
bar h2 y1 x (negsuc y) = record { x = x; y = sub_nat y1 (y + 1); w = 1; h = y + 1 }

-- `for (x = 0; x < WIDTH; x++)`, with the columns that are left
unfoldable pub draw_bars : ℕ → ℕ → List ℕ → ℕ → ℕ → ℕ → Option (List DrawCall)
unfolding bar fill_rectangle int16 times shift_right_15
draw_bars h2 y1 array zero x i = some []
draw_bars h2 y1 array (suc left) x i = do
  sample ← get_elem? array i
  let calls = fill_rectangle (bar h2 y1 x (shift_right_15 (times (int16 sample) h2)))
  rest ←
      draw_bars h2 y1 array left (x + 1)
        (if leb (length array) (i + 1) then i + 1 - length array else i + 1)
  some (calls ++ rest)

-- `AudioDisplay`, for the input array or the output array
unfoldable pub audio_display : Bool → Bool → Samples → Option (List DrawCall)
unfolding start_index draw_bars
audio_display input output_enabled s = do
  let array = if input then s.array_in else s.array_out
  let ytop = if input then height / 2 else 0
  let h = height / 2
  let h2 = h * 9 / 20
  i_start ← start_index output_enabled array s.index
  bars ← draw_bars h2 (ytop + h / 2) array width 0 i_start
  some (
      (if input then set_draw_color 0 0 255 else set_draw_color 255 255 255) ∷ bars
      ++ (set_draw_color 0 0 255 ∷ []))

-- The events that the window's thread looks at, and what they ask of the application.
pub data UiEvent : Type 0 where
  quit escape_key t_key a_key other_event : UiEvent

pub data Request : Type 0 where
  toggle_chat_state abort_speaking : Request

-- One event: whether the loop goes on, and the requests so far.
unfoldable pub on_event : UiEvent → Bool × List Request → Bool × List Request
on_event quit (running, rs) = (false, rs)
on_event escape_key (running, rs) = (false, rs)
on_event t_key (running, rs) = (running, rs ++ (toggle_chat_state ∷ []))
on_event a_key (running, rs) = (running, rs ++ (abort_speaking ∷ []))
on_event other_event q = q

unfoldable pub on_events : List UiEvent → Bool × List Request → Bool × List Request
unfolding on_event
on_events [] q = q
on_events (e ∷ es) q = on_events es (on_event e q)

-- The rest of a round: the picture.
unfoldable pub draw_window : Bool → Bool → Samples → Option (List DrawCall)
unfolding audio_display
draw_window input_enabled output_enabled s = do
  top ← audio_display true output_enabled s
  bottom ← audio_display false output_enabled s
  some (
      (if input_enabled then set_draw_color 0 255 0 else set_draw_color 255 0 0) ∷ clear ∷ top
      ++ (bottom ++ (present ∷ [])))

-- How `start` ends, by whether `SDL_Init` and `SDL_CreateWindowAndRenderer` succeed.
unfoldable pub start_result : Bool → Bool → Bool
start_result init_ok window_ok = init_ok && window_ok
