-- ===== src/Application/State.antt =====
-- application.h: the state of the application. The closures that it puts on its queues are data,
-- one constructor for each lambda of application.cc with the values that it captures. Sound samples
-- are left abstract numbers. What the display, the codec and the protocol are told is a trace.
use xiaozhi_pc.Base.{ℕ, Bool, Option, List, [], ◌∷◌, ◌++◌}
use xiaozhi_pc.Base.Text.{Bytes}
use Prim.Native.String.{String}

pub data DeviceState : Type 0 where
  unknown starting wifi_configuring idle connecting : DeviceState
  listening speaking upgrading activating fatal_error : DeviceState

pub data ListeningMode : Type 0 where
  auto_stop manual_stop realtime : ListeningMode

pub record AudioStreamPacket : Type 0 where
  pub timestamp : ℕ
  pub payload : Bytes

abbrev pub Pcm : Type 0
Pcm = List ℕ

-- The lambdas given to `Application::Schedule`.
pub data Task : Type 0 where
  channel_closed : Task
  tts_start : Task
  tts_stop : Task
  chat_message : String → String → Task
  emotion : String → Task
  send_audio : AudioStreamPacket → Task
  open_chat : Task
  abort : Task
  close_chat : Task

-- The lambdas given to `BackgroundTask::Schedule`.
pub data BackgroundJob : Type 0 where
  encode : Pcm → BackgroundJob
  decode : AudioStreamPacket → BackgroundJob

-- What is done outside the application.
pub data Effect : Type 0 where
  set_status : String → Effect
  set_emotion : String → Effect
  set_chat_message : String → String → Effect
  show_notification : String → Effect
  led_state_changed : Effect
  set_power_save_mode : Bool → Effect
  send_start_listening : ListeningMode → Effect
  send_abort_speaking : Effect
  send_packet : AudioStreamPacket → Effect
  open_audio_channel : Effect
  close_audio_channel : Effect
  output_data : Pcm → Effect
  set_output_format : ℕ → Effect

-- The Opus library: the result of the n-th call for a decoder and for an encoder, `none` when it
-- fails. A coder's state is the calls before, so any behaviour of the library is such a function.
pub record Opus : Type 0 where
  pub decode_call : ℕ → Bytes → Option Pcm
  pub encode_call : ℕ → Pcm → Option Bytes

pub record App : Type 0 where
  pub device_state : DeviceState
  pub listening_mode : ListeningMode
  pub aborted : Bool
  pub busy_decoding_audio : Bool
  pub realtime_chat_enabled : Bool
  -- `protocol_` is not null
  pub has_protocol : Bool
  -- `busy_sending_audio_` of the protocol
  pub channel_busy : Bool
  pub main_tasks : List Task
  pub background : List BackgroundJob
  pub audio_decode_queue : List AudioStreamPacket
  pub timestamp_queue : List ℕ
  pub last_output_timestamp : ℕ
  -- nanoseconds of the steady clock
  pub last_output_time : ℕ
  pub clock : ℕ
  -- `is_running_` of the audio processor
  pub processor_running : Bool
  pub output_enabled : Bool
  pub codec_sample_rate : ℕ
  pub decoder_sample_rate : ℕ
  pub decoder_duration : ℕ
  pub decode_calls : ℕ
  pub encode_calls : ℕ
  pub trace : List Effect

-- Something done outside, at the end of the trace.
abbrev pub emit : Effect → App → App
emit e a = record a { trace = a.trace ++ (e ∷ []) }
