-- ===== src/Application/Session.antt =====
-- application.cc: sequences of what happens to a running application, and what holds after any.
pub mod Lengths
pub mod Bounded
pub mod Tasks
pub mod Coherent
pub mod Edges
pub mod Quiet
pub mod Turns
pub mod Conversation
pub mod Started
pub mod Stuck
pub mod NoTopic
use Prim.Native.String.{String}
use xiaozhi_pc.Base.{ℕ, ◌+◌, Option, none, some, List, [], ◌∷◌}
use xiaozhi_pc.Application.State.{AudioStreamPacket, Pcm, Task, BackgroundJob, encode, Opus, App}
use xiaozhi_pc.Application.Audio.{
  run_job, on_incoming_audio, audio_loop_output, schedule_background,
}
use xiaozhi_pc.Application.Device.{SendResult, dismiss_alert}
use xiaozhi_pc.Application.Handlers.{
  Answers, Item, run_task, abort_speaking_later, toggle_chat_state, on_incoming_json, on_goodbye,
}

-- One step of one of the threads, with what it meets outside.
pub data Event : Type 0 where
  incoming_audio : AudioStreamPacket → Event
  incoming_json : String → (String → Item) → Event
  audio_round : Event
  processor_output : Pcm → Event
  background_step : Event
  main_step : Answers → Event
  toggle : SendResult → Event
  abort_key : Event
  -- a goodbye from the server, with the id of this session or none
  goodbye : Event
  dismiss : Event
  clock_tick : ℕ → Event

-- The background task takes its first job.
pub background_job : Opus → List BackgroundJob → App → App
background_job o [] a = a
background_job o (j ∷ js) a = run_job o j (record a { background = js })

-- The main loop takes its first task.
pub main_task : Opus → Answers → List Task → App → App
main_task o w [] a = a
main_task o w (t ∷ ts) a = run_task o w t (record a { main_tasks = ts })

-- `none` where the code reads a null pointer.
unfoldable pub step : Opus → Event → App → Option App
unfolding background_job main_task
step o (incoming_audio packet) a = some (on_incoming_audio packet a)
step o (incoming_json type get) a = on_incoming_json type get a
step o audio_round a = some (audio_loop_output a)
step o (processor_output pcm) a = some (schedule_background (encode pcm) a)
step o background_step a = some (background_job o a.background a)
step o (main_step w) a = some (main_task o w a.main_tasks a)
step o (toggle r) a = some (toggle_chat_state o r a)
step o abort_key a = some (abort_speaking_later a)
step o goodbye a = some (on_goodbye a)
step o dismiss a = some (dismiss_alert a)
step o (clock_tick n) a = some (record a { clock = a.clock + n })

unfoldable pub run : Opus → List Event → App → Option App
run o [] a = some a
run o (e ∷ es) a = elim (step o e a) [ none ↦ none | some b ↦ run o es b ]
