-- ===== src/Application/Audio.antt =====
-- application.cc: the audio queues. `OnIncomingAudio`, `OnAudioOutput` with the job that it hands
-- to the background task, the `OnOutput` callback of the processor with its job, `ResetDecoder`,
-- `SetDecodeSampleRate`, and `Schedule`. One call is one step: the mutexes are not modelled here.
use xiaozhi_pc.Base.{
  ℕ, ◌+◌, ◌-◌, ◌/◌, Bool, true, false, ◌&&◌, none, some, List, [], ◌∷◌, ◌++◌, ltb, ◌==◌,
  if◌then◌else◌, length,
}
use xiaozhi_pc.Base.Text.{Bytes}
use xiaozhi_pc.Application.State.{
  DeviceState, AudioStreamPacket, Pcm, Task, send_audio, BackgroundJob, encode, decode, output_data,
  set_output_format, Opus, App, emit,
}

-- `Application::Schedule`
unfoldable pub schedule : Task → App → App
schedule t a = record a { main_tasks = a.main_tasks ++ (t ∷ []) }

-- `BackgroundTask::Schedule`
unfoldable pub schedule_background : BackgroundJob → App → App
schedule_background j a = record a { background = a.background ++ (j ∷ []) }

-- 600 / OPUS_FRAME_DURATION_MS
abbrev pub max_packets_in_queue : ℕ
max_packets_in_queue = 600 / 60

unfoldable pub on_incoming_audio : AudioStreamPacket → App → App
on_incoming_audio packet a =
    if ltb (length a.audio_decode_queue) max_packets_in_queue
    then record a { audio_decode_queue = a.audio_decode_queue ++ (packet ∷ []) }
    else a

-- `device_state_ == kDeviceStateIdle`, and so on
abbrev pub is_idle : DeviceState → Bool
is_idle DeviceState.idle = true
is_idle _ = false

abbrev pub is_listening : DeviceState → Bool
is_listening DeviceState.listening = true
is_listening _ = false

-- `OnAudioOutput` on an empty queue: a silence of more than ten seconds switches the output off.
output_silence : App → App
output_silence a =
    if is_idle a.device_state && ltb 10 ((a.clock - a.last_output_time) / 1000000000)
    then record a { output_enabled = false }
    else a

output_packet : AudioStreamPacket → List AudioStreamPacket → App → App
output_packet packet rest a =
    if is_listening a.device_state
    then record a { audio_decode_queue = [] }
    else schedule_background (decode packet)
        (record a { audio_decode_queue = rest; busy_decoding_audio = true })

unfoldable pub on_audio_output : App → App
unfolding output_silence output_packet schedule_background
on_audio_output a = if a.busy_decoding_audio then a else elim a.audio_decode_queue [
  | [] ↦ output_silence a
  | packet ∷ rest ↦ output_packet packet rest a
]

-- A round of `AudioLoop` as far as the output goes.
unfoldable pub audio_loop_output : App → App
unfolding on_audio_output
audio_loop_output a = if a.output_enabled then on_audio_output a else a

-- The front of the timestamp queue, or 0, and the queue without it.
abbrev pub pop_timestamp : List ℕ → ℕ × List ℕ
pop_timestamp [] = (0, [])
pop_timestamp (t ∷ ts) = (t, ts)

abbrev pub tail {ℓ} : {A : Type ℓ} → List A → List A
tail [] = []
tail (x ∷ xs) = xs

-- The callback of `Encode`.
unfoldable pub on_encoded : Bytes → App → App
unfolding schedule
on_encoded opus a =
    let (t, ts) = pop_timestamp a.timestamp_queue in
    if ltb 3 (length ts)
    then record a { timestamp_queue = tail ts }
    else schedule (send_audio (record { timestamp = t; payload = opus }))
        (record a { timestamp_queue = ts })

unfoldable pub run_encode : Opus → Pcm → App → App
unfolding on_encoded
run_encode o pcm a = if a.channel_busy then a else elim (o.encode_call a.encode_calls pcm) [
  | none ↦ record a { encode_calls = a.encode_calls + 1 }
  | some opus ↦ on_encoded opus (record a { encode_calls = a.encode_calls + 1 })
]

-- What the decoding job does with the samples.
abbrev play : AudioStreamPacket → Pcm → App → App
play packet pcm a = record a {
  trace = a.trace ++ (output_data pcm ∷ []);
  timestamp_queue = a.timestamp_queue ++ (packet.timestamp ∷ []);
  last_output_timestamp = packet.timestamp;
  last_output_time = a.clock;
}

unfoldable pub run_decode : Opus → AudioStreamPacket → App → App
run_decode o packet a =
    if a.aborted
    then record a { busy_decoding_audio = false }
    else elim (o.decode_call a.decode_calls packet.payload) [
      | none ↦ record a { busy_decoding_audio = false; decode_calls = a.decode_calls + 1 }
      | some pcm ↦
          play packet pcm
            (record a { busy_decoding_audio = false; decode_calls = a.decode_calls + 1 })
    ]

unfoldable pub run_job : Opus → BackgroundJob → App → App
unfolding run_encode run_decode
run_job o (encode pcm) a = run_encode o pcm a
run_job o (decode packet) a = run_decode o packet a

unfoldable pub run_jobs : Opus → List BackgroundJob → App → App
run_jobs o [] a = a
run_jobs o (j ∷ js) a = run_jobs o js (run_job o j a)

-- `BackgroundTask::WaitForCompletion`: the jobs that are pending have run when it returns.
unfoldable pub wait_for_completion : Opus → App → App
wait_for_completion o a = run_jobs o a.background (record a { background = [] })

unfoldable pub reset_decoder : App → App
reset_decoder a = record a {
  audio_decode_queue = [];
  last_output_time = a.clock;
  output_enabled = true;
}

unfoldable pub set_decode_sample_rate : ℕ → ℕ → App → App
set_decode_sample_rate rate duration a =
    if a.decoder_sample_rate == rate && a.decoder_duration == duration
    then a
    else let a' = record a {
      decoder_sample_rate = rate;
      decoder_duration = duration;
      decode_calls = 0;
    } in
      if rate == a.codec_sample_rate then a' else emit (set_output_format rate) a'
