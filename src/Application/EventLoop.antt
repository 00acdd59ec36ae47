-- ===== src/Application/EventLoop.antt =====
-- application.cc: `EventLoop`, which no part of the program calls: while the left mouse button is
-- down, the codec listens.
use xiaozhi_pc.Base.{Bool, true, false, List, [], ◌∷◌, if◌then◌else◌}
use xiaozhi_pc.Codec.{Codec, enable_input}

pub data MouseEvent : Type 0 where
  quit left_down left_up other_event : MouseEvent

-- One event: whether the loop goes on, and the codec.
unfoldable pub on_mouse : MouseEvent → Bool × Codec → Bool × Codec
unfolding enable_input
on_mouse quit (running, c) = (false, c)
on_mouse left_down (running, c) = (running, enable_input true c)
on_mouse left_up (running, c) = (running, enable_input false c)
on_mouse other_event q = q

-- The events that are there when the loop polls, to the last.
unfoldable pub poll : List MouseEvent → Bool × Codec → Bool × Codec
unfolding on_mouse
poll [] q = q
poll (e ∷ es) q = poll es (on_mouse e q)

-- The rounds of the loop: it ends behind the round in which a quit came.
unfoldable pub event_loop : List (List MouseEvent) → Codec → Codec
unfolding poll
event_loop [] c = c
event_loop (es ∷ rounds) c =
    let (running, c') = poll es (true, c) in
    let rest = event_loop rounds c' in if running then rest else c'
