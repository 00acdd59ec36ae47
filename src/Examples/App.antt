-- ===== src/Examples/App.antt =====
-- The application.
use xiaozhi_pc.Base.{◌≡◌, ◌≢◌, refl, true, false, some, List, [], ◌∷◌, arith}
use xiaozhi_pc.Application.State.{
  DeviceState, manual_stop, AudioStreamPacket, Opus, App, decode, send_abort_speaking,
}
use xiaozhi_pc.Application.Audio.{on_incoming_audio, audio_loop_output, schedule}
use xiaozhi_pc.Application.Device.{sent, not_sent, send_failed, send, set_device_state}
use xiaozhi_pc.Application.Handlers.{
  Answers, not_opened, run_open_chat, toggle_chat_state, run_task, abort_speaking,
}
use xiaozhi_pc.Application.Transitions.{
  status, target, set_device_state-status, toggle_chat_state_stuck,
}
use xiaozhi_pc.Application.Session.{
  Event, incoming_audio, audio_round, toggle, main_step, step, run,
}
use xiaozhi_pc.Application.Session.Edges.{Edge, step-Edge}
use xiaozhi_pc.Application.Session.Started.{conversation-start_app}
use xiaozhi_pc.Application.Session.Conversation.{Ends, loop_step, turns, conversation}
use xiaozhi_pc.Application.State.{abort}
use xiaozhi_pc.Application.Session.Coherent.{run-IsCoherent}
use xiaozhi_pc.Application.Coherent.{IsCoherent}
use xiaozhi_pc.Application.Start.{initial, start_failed, start_app, start_app-status}
use xiaozhi_pc.Application.Session.Bounded.{IsBounded, run-IsBounded}

-- A codec that copies bytes, and fails to decode nothing.
abbrev pub opus : Opus
opus = record { decode_call = λ n s. some s; encode_call = λ n s. some s }

abbrev pub answers : Answers
answers = record { opening = not_opened; sending = not_sent }

abbrev pub app : DeviceState → App
app state = record {
  device_state = state;
  listening_mode = manual_stop;
  aborted = false;
  busy_decoding_audio = false;
  realtime_chat_enabled = false;
  has_protocol = true;
  channel_busy = false;
  main_tasks = [];
  background = [];
  audio_decode_queue = [];
  timestamp_queue = [];
  last_output_timestamp = 0;
  last_output_time = 0;
  clock = 5;
  processor_running = false;
  output_enabled = true;
  codec_sample_rate = 24000;
  decoder_sample_rate = 24000;
  decoder_duration = 60;
  decode_calls = 0;
  encode_calls = 0;
  trace = [];
}

abbrev packet : AudioStreamPacket
packet = record { timestamp = 40; payload = 1 ∷ 2 ∷ [] }

-- Two packets arrive, and the first is handed to the background task.
abbrev played : App
played = record (app DeviceState.speaking) {
  audio_decode_queue = packet ∷ [];
  busy_decoding_audio = true;
  background = decode packet ∷ [];
}

abbrev two_packets : List Event
two_packets = incoming_audio packet ∷ incoming_audio packet ∷ audio_round ∷ []

run-two_packets : run opus two_packets (app DeviceState.speaking) ≡ some played
unfolding run step audio_loop_output on_incoming_audio
run-two_packets = refl

run-IsBounded_example : IsBounded played
run-IsBounded_example =
    run-IsBounded opus two_packets (app DeviceState.speaking) played (omega arith) run-two_packets

-- The start command of listening fails.
set_device_state-status_example :
    ((app DeviceState.connecting).device_state ≢ DeviceState.listening
      → status (
          set_device_state opus
            (send_failed "SERVER_ERROR")
            DeviceState.listening
            (app DeviceState.connecting))
        ≡ target
            (send_failed "SERVER_ERROR")
            DeviceState.listening
            manual_stop
            (status (app DeviceState.connecting)))
    × ((app DeviceState.connecting).device_state ≡ DeviceState.listening
        → set_device_state opus
            (send_failed "SERVER_ERROR")
            DeviceState.listening
            (app DeviceState.connecting)
          ≡ app DeviceState.connecting)
set_device_state-status_example =
    set_device_state-status opus (send_failed "SERVER_ERROR") DeviceState.listening
      (app DeviceState.connecting)

toggle_chat_state_stuck_test :
    ((run_open_chat opus answers (app DeviceState.idle)).device_state ≡ DeviceState.connecting)
    × (toggle_chat_state opus sent (run_open_chat opus answers (app DeviceState.idle))
        ≡ run_open_chat opus answers (app DeviceState.idle))
toggle_chat_state_stuck_test = toggle_chat_state_stuck opus answers sent (app DeviceState.idle) refl

-- The key is pressed while the device speaks, and the main loop runs the task.
abbrev aborting : List Event
aborting = toggle sent ∷ main_step (record { opening = not_opened; sending = sent }) ∷ []

abbrev aborted : App
aborted = record (app DeviceState.speaking) { aborted = true; trace = send_abort_speaking ∷ [] }

run-aborting : run opus aborting (app DeviceState.speaking) ≡ some aborted
unfolding run step toggle_chat_state run_task abort_speaking send schedule
run-aborting = refl

run-IsCoherent_example : IsCoherent aborted
run-IsCoherent_example =
    run-IsCoherent opus aborting (app DeviceState.speaking) aborted (tt, (tt, tt)) refl run-aborting

start_app-status_example :
    status (start_app opus (start_failed "SERVER_NOT_CONNECTED") (initial 16000))
    ≡ record { device_state = DeviceState.idle; running = true; output = true }
start_app-status_example =
    start_app-status opus (start_failed "SERVER_NOT_CONNECTED") (initial 16000) refl

abbrev toggled : App
toggled = record (app DeviceState.speaking) { main_tasks = abort ∷ [] }

step-aborted :
    step opus (main_step (record { opening = not_opened; sending = sent })) toggled ≡ some aborted
unfolding step run_task abort_speaking send
step-aborted = refl

step-Edge_example : Edge DeviceState.speaking DeviceState.speaking
step-Edge_example =
    step-Edge opus (main_step (record { opening = not_opened; sending = sent })) toggled aborted
      step-aborted

-- The key, and then two answers of the server.
conversation_example :
    Ends opus
      (toggle sent ∷ loop_step 24000 60 ∷ turns 24000 60 2)
      DeviceState.listening
      (app DeviceState.idle)
conversation_example =
    conversation opus 24000 60 2 (app DeviceState.idle)
      (record { no_tasks = refl; no_jobs = refl; protocol = refl }) refl

conversation-start_app_example :
    Ends opus
      (toggle sent ∷ loop_step 24000 60 ∷ turns 24000 60 3)
      DeviceState.listening
      (start_app opus (start_failed "SERVER_NOT_CONNECTED") (initial 16000))
conversation-start_app_example =
    conversation-start_app opus (start_failed "SERVER_NOT_CONNECTED") 16000 24000 60 3
