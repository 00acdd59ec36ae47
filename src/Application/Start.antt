-- ===== src/Application/Start.antt =====
-- application.cc: `Start`, up to the main event loop, as its own thread runs it. What the version check
-- does stands in the model of the OTA client.
use Prim.Native.String.{String}
use xiaozhi_pc.Base.{ℕ, ◌≡◌, refl, ◌∙◌, ap, Bool, true, false, [], arith}
use xiaozhi_pc.Application.State.{
  DeviceState, auto_stop, set_status, set_chat_message, show_notification, Opus, App, emit,
}
use xiaozhi_pc.Application.Audio.{reset_decoder}
use xiaozhi_pc.Application.Device.{set_device_state, not_sent, on_network_error}
use xiaozhi_pc.Application.Transitions.{
  Status, status, set_device_state-status, on_network_error-status,
}

-- The members' initial values, with the output rate of the codec.
abbrev pub initial : ℕ → App
initial rate = record {
  device_state = DeviceState.unknown;
  listening_mode = auto_stop;
  aborted = false;
  busy_decoding_audio = false;
  realtime_chat_enabled = false;
  has_protocol = false;
  channel_busy = false;
  main_tasks = [];
  background = [];
  audio_decode_queue = [];
  timestamp_queue = [];
  last_output_timestamp = 0;
  last_output_time = 0;
  clock = 0;
  processor_running = false;
  output_enabled = false;
  codec_sample_rate = rate;
  decoder_sample_rate = 0;
  decoder_duration = 0;
  decode_calls = 0;
  encode_calls = 0;
  trace = [];
}

-- What `Start` of the protocol does: it returns true, it returns false quietly, or it reports an
-- error and returns false.
pub data ProtocolStart : Type 0 where
  started not_started : ProtocolStart
  start_failed : String → ProtocolStart

-- From the beginning to the protocol: the decoder, `codec->Start()`, and the protocol object.
unfoldable pub start_codec : Opus → App → App
unfolding set_device_state
start_codec o a =
    let a' = set_device_state o not_sent DeviceState.starting a in
    emit (set_status "LOADING_PROTOCOL") (record a' {
      decoder_sample_rate = a'.codec_sample_rate;
      decoder_duration = 60;
      output_enabled = true;
      has_protocol = true;
    })

-- `protocol_->Start()`
unfoldable pub start_protocol : Opus → ProtocolStart → App → App
unfolding on_network_error
start_protocol o started a = a
start_protocol o not_started a = a
start_protocol o (start_failed message) a = on_network_error o message a

-- `audio_processor_->Start()` and the idle state
unfoldable pub start_processor : Opus → App → App
unfolding set_device_state
start_processor o a =
    set_device_state o not_sent DeviceState.idle (record a { processor_running = true })

-- What is done when the protocol has started.
unfoldable pub announce : ProtocolStart → App → App
unfolding reset_decoder
announce started a =
    reset_decoder (emit (set_chat_message "system" "") (emit (show_notification "version xxx") a))
announce not_started a = a
announce (start_failed message) a = a

unfoldable pub start_app : Opus → ProtocolStart → App → App
unfolding start_codec start_protocol start_processor announce
start_app o p a = announce p (start_processor o (start_protocol o p (start_codec o a)))

abbrev pub is_failed : ProtocolStart → Bool
is_failed (start_failed message) = true
is_failed _ = false

start_codec-status :
    (o : Opus) (a : App)
    → a.device_state ≡ DeviceState.unknown
    → status (start_codec o a)
      ≡ record { device_state = DeviceState.starting; running = a.processor_running; output = true }
unfolding start_codec
start_codec-status o a h =
    ap
      (λ (s : Status).
        let t : Status = record {
          device_state = s.device_state;
          running = s.running;
          output = true;
        } in
        t)
      ((set_device_state-status o not_sent DeviceState.starting a).0 (λ e. cc))

idle_lem :
    (o : Opus) (a : App)
    → a.device_state ≡ DeviceState.starting
    → a.output_enabled ≡ true
    → status (start_processor o a)
      ≡ record { device_state = DeviceState.idle; running = false; output = true }
unfolding start_processor
idle_lem o a h out =
    (set_device_state-status o not_sent DeviceState.idle (record a { processor_running = true })).0
      (λ e. cc)
    ∙ ap
        (λ b.
          let t : Status = record {
            device_state = DeviceState.idle;
            running = false;
            output = b;
          } in
          t)
        out

-- From the starting state, in which the protocol starts.
from_starting :
    (o : Opus) (p : ProtocolStart) (a : App)
    → a.device_state ≡ DeviceState.starting
    → a.output_enabled ≡ true
    → status (start_processor o (start_protocol o p a))
      ≡ record { device_state = DeviceState.idle; running = is_failed p; output = true }
unfolding start_processor start_protocol
from_starting o started a h out = idle_lem o a h out
from_starting o not_started a h out = idle_lem o a h out
from_starting o (start_failed message) a h out =
    let c = on_network_error o message a in
    let e = on_network_error-status o message a in
    ap status (
      (set_device_state-status o not_sent DeviceState.idle
          (record c { processor_running = true })).1
        (ap (λ (s : Status). s.device_state) e))
    ∙ ap
        (λ (s : Status).
          let t : Status = record {
            device_state = s.device_state;
            running = true;
            output = s.output;
          } in
          t)
        e

announce-status :
    (p : ProtocolStart) (a : App) → a.output_enabled ≡ true → status (announce p a) ≡ status a
unfolding announce reset_decoder
announce-status started a h = ground (arith, h)
announce-status not_started a h = refl
announce-status (start_failed message) a h = refl

-- `Start` in the unknown state ends in the idle state with the output on, whatever the background
-- jobs do. The audio processor is stopped then, unless the protocol reported an error while it
-- started: in that case it is left running in the idle state.
pub start_app-status :
    (o : Opus) (p : ProtocolStart) (a : App)
    → a.device_state ≡ DeviceState.unknown
    → status (start_app o p a)
      ≡ record { device_state = DeviceState.idle; running = is_failed p; output = true }
unfolding start_app
start_app-status o p a h =
    let e = start_codec-status o a h in
    let f =
      from_starting o p (start_codec o a) (ap (λ (s : Status). s.device_state) e)
        (ap (λ (s : Status). s.output) e) in
    announce-status p (start_processor o (start_protocol o p (start_codec o a)))
      (ap (λ (s : Status). s.output) f)
    ∙ f
