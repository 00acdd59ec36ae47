-- ===== src/Application/Session/Turns.antt =====
-- application.cc: what a turn of a conversation does to an application on which nothing waits.
use xiaozhi_pc.Base.{ℕ, ◌≡◌, refl, ap, sym, ◌∙◌, subst, Bool, true, false, [], arith, if◌then◌else◌}
use xiaozhi_pc.Application.State.{
  DeviceState, ListeningMode, auto_stop, realtime, open_audio_channel, Opus, App, emit,
}
use xiaozhi_pc.Application.Audio.{
  wait_for_completion, run_jobs, reset_decoder, set_decode_sample_rate,
}
use xiaozhi_pc.Application.Device.{
  sent, send, change_state, enter, enter_idle, enter_connecting, enter_listening, enter_speaking,
  set_device_state, DeviceState-discrete,
}
use xiaozhi_pc.Application.Handlers.{
  is_manual_stop, opened, run_open_chat, run_tts_start, run_tts_stop, set_listening_mode,
  on_audio_channel_opened,
}
use xiaozhi_pc.Application.Transitions.{
  Status, status, target, set_device_state-status, change_state-status,
}
use xiaozhi_pc.Application.Session.Quiet.{IsQuiet, set_device_state-IsQuiet}

-- A quiet application in this state, whose turns end by themselves.
pub record IsTurn (d : DeviceState) (a : App) : Type 0 where
  pub quiet : IsQuiet a
  pub state : a.device_state ≡ d
  pub not_manual : is_manual_stop a.listening_mode ≡ false

enter-listening_mode :
    (o : Opus) (d : DeviceState) (a : App) → (enter o sent d a).listening_mode ≡ a.listening_mode
unfolding enter enter_idle enter_connecting enter_listening enter_speaking send reset_decoder
enter-listening_mode o DeviceState.idle a = refl
enter-listening_mode o DeviceState.unknown a = refl
enter-listening_mode o DeviceState.connecting a = refl
enter-listening_mode o DeviceState.listening a = ground arith
enter-listening_mode o DeviceState.speaking a = ground arith
enter-listening_mode o _ a = refl

set_device_state-listening_mode :
    (o : Opus) (d : DeviceState) (a : App)
    → (set_device_state o sent d a).listening_mode ≡ a.listening_mode
unfolding set_device_state
set_device_state-listening_mode o d a =
    elim (DeviceState-discrete a.device_state d)
      as (λ b.
        (elim b as (λ _. App) [
          | yes _ ↦ a
          | no _ ↦ enter o sent d (change_state o d a)
        ]).listening_mode
        ≡ a.listening_mode) [
          | yes _ ↦ refl
          | no _ ↦ enter-listening_mode o d (change_state o d a) ∙ (change_state-status o d a).1
        ]

target-sent :
    (d : DeviceState) (m : ListeningMode) (s : Status) → (target sent d m s).device_state ≡ d
target-sent DeviceState.unknown m s = refl
target-sent DeviceState.idle m s = refl
target-sent DeviceState.listening m s = refl
target-sent DeviceState.speaking m s = refl
target-sent _ m s = refl

set_device_state-sent :
    (o : Opus) (d : DeviceState) (a : App) → (set_device_state o sent d a).device_state ≡ d
set_device_state-sent o d a = elim (DeviceState-discrete a.device_state d) [
  | yes e ↦ ap (λ (b : App). b.device_state) ((set_device_state-status o sent d a).1 e) ∙ e
  | no ne ↦
      ap (λ (s : Status). s.device_state) ((set_device_state-status o sent d a).0 ne)
      ∙ target-sent d a.listening_mode (status a)
]

set_device_state-IsTurn :
    (o : Opus) (d : DeviceState) (a : App)
    → IsQuiet a
    → is_manual_stop a.listening_mode ≡ false
    → IsTurn d (set_device_state o sent d a)
set_device_state-IsTurn o d a q m = record {
  quiet = set_device_state-IsQuiet o sent d a q;
  state = set_device_state-sent o d a;
  not_manual = ap is_manual_stop (set_device_state-listening_mode o d a) ∙ m;
}

pub run_tts_start-IsTurn :
    (o : Opus) (a : App)
    → IsTurn DeviceState.listening a
    → IsTurn DeviceState.speaking (run_tts_start o sent a)
unfolding run_tts_start
run_tts_start-IsTurn o a t =
    let b : App = record a { aborted = false } in
    let e : run_tts_start o sent a ≡ set_device_state o sent DeviceState.speaking b =
      ground (arith, t.state) in
    subst (IsTurn DeviceState.speaking) (sym e) (
      set_device_state-IsTurn o DeviceState.speaking b
        (record {
          no_tasks = t.quiet.no_tasks;
          no_jobs = t.quiet.no_jobs;
          protocol = t.quiet.protocol;
        })
        t.not_manual)

pub run_tts_stop-IsTurn :
    (o : Opus) (a : App)
    → IsTurn DeviceState.speaking a
    → IsTurn DeviceState.listening (run_tts_stop o sent a)
unfolding run_tts_stop wait_for_completion run_jobs
run_tts_stop-IsTurn o a t =
    let b : App = record a { background = [] } in
    let e0 : wait_for_completion o a ≡ b = rw (t.quiet.no_jobs, run_jobs) refl in
    let e : run_tts_stop o sent a ≡ set_device_state o sent DeviceState.listening b =
      ground (arith, e0, t.state, t.not_manual) in
    subst (IsTurn DeviceState.listening) (sym e) (
      set_device_state-IsTurn o DeviceState.listening b
        (record { no_tasks = t.quiet.no_tasks; no_jobs = refl; protocol = t.quiet.protocol })
        t.not_manual)

opened-IsQuiet :
    (rate duration : ℕ) (a : App) → IsQuiet a → IsQuiet (on_audio_channel_opened rate duration a)
unfolding on_audio_channel_opened set_decode_sample_rate
opened-IsQuiet rate duration a q = record {
  no_tasks = ground (arith, q.no_tasks);
  no_jobs = ground (arith, q.no_jobs);
  protocol = ground (arith, q.protocol);
}

pub run_open_chat-IsTurn :
    (o : Opus) (rate duration : ℕ) (a : App)
    → IsQuiet a
    → IsTurn DeviceState.listening
        (run_open_chat o (record { opening = opened rate duration; sending = sent }) a)
unfolding run_open_chat set_listening_mode
run_open_chat-IsTurn o rate duration a q =
    let a' = emit open_audio_channel (set_device_state o sent DeviceState.connecting a) in
    let c = on_audio_channel_opened rate duration a' in
    let mode = if a'.realtime_chat_enabled then realtime else auto_stop in
    let s = set_device_state-IsQuiet o sent DeviceState.connecting a q in
    let p =
      opened-IsQuiet rate duration a'
        (record { no_tasks = s.no_tasks; no_jobs = s.no_jobs; protocol = s.protocol }) in
    set_device_state-IsTurn o DeviceState.listening (record c { listening_mode = mode })
      (record { no_tasks = p.no_tasks; no_jobs = p.no_jobs; protocol = p.protocol })
      (ends a'.realtime_chat_enabled)
  where
    ends : (b : Bool) → is_manual_stop (if b then realtime else auto_stop) ≡ false
    ends true = refl
    ends false = refl
