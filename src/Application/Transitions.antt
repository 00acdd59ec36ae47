-- ===== src/Application/Transitions.antt =====
-- application.cc: where `SetDeviceState` and the handlers take the state machine.
use Prim.Native.String.{String}
use xiaozhi_pc.Base.{◌≡◌, ◌≢◌, refl, ◌∙◌, ap, Bool, true, false, ◌&&◌, ◌||◌, arith, if◌then◌else◌}
use xiaozhi_pc.Application.State.{
  DeviceState, ListeningMode, Opus, App, emit, set_emotion, set_status,
}
use xiaozhi_pc.Application.Audio.{is_idle, is_listening, reset_decoder, wait_for_completion}
use xiaozhi_pc.Application.Device.{
  SendResult, sent, not_sent, send_failed, change_state, set_idle, alert, on_network_error, send,
  enter_listening, enter, set_device_state, enter_idle, enter_connecting, enter_speaking,
  DeviceState-discrete, is_realtime,
}
use xiaozhi_pc.Application.Bounds.{change_state-Keeps, wait_for_completion-Keeps}
use xiaozhi_pc.Application.Handlers.{
  is_manual_stop, is_speaking, run_tts_start, run_tts_stop, run_open_chat, Answers, not_opened,
  toggle_chat_state,
}

-- What `SetDeviceState` sees of the application.
pub record Status : Type 0 where
  pub device_state : DeviceState
  pub running : Bool
  pub output : Bool

abbrev pub status : App → Status
status a = record {
  device_state = a.device_state;
  running = a.processor_running;
  output = a.output_enabled;
}

-- The specification of `SetDeviceState` to another state. The case of listening says what comes
-- of a start command that fails: the error handler goes to idle, and then the processor starts.
abbrev pub target : SendResult → DeviceState → ListeningMode → Status → Status
target r DeviceState.unknown m s = record s { device_state = DeviceState.unknown; running = false }
target r DeviceState.idle m s = record s { device_state = DeviceState.idle; running = false }
target r DeviceState.speaking m s = record {
  device_state = DeviceState.speaking;
  running = s.running && is_realtime m;
  output = true;
}
target (send_failed e) DeviceState.listening m s =
    if s.running
    then record s { device_state = DeviceState.listening }
    else record { device_state = DeviceState.idle; running = true; output = true }
target r DeviceState.listening m s = record s {
  device_state = DeviceState.listening;
  running = true;
}
target r d m s = record s { device_state = d }

pub change_state-status :
    (o : Opus) (d : DeviceState) (a : App)
    → (status (change_state o d a) ≡ record (status a) { device_state = d })
      × ((change_state o d a).listening_mode ≡ a.listening_mode)
change_state-status o d a = ground (arith, change_state-Keeps o d a)

-- The error handler ends in idle with the output on. It stops the processor unless the state was
-- idle already.
pub on_network_error-status :
    (o : Opus) (m : String) (a : App)
    → status (on_network_error o m a) ≡ record {
      device_state = DeviceState.idle;
      running = is_idle a.device_state && a.processor_running;
      output = true;
    }
unfolding on_network_error set_idle enter_idle alert reset_decoder
on_network_error-status o m a =
    ground (arith, change_state-status o DeviceState.idle a, idle_state a.device_state)
  where
    idle_state : (d : DeviceState) → is_idle d ≡ true → d ≡ DeviceState.idle
    idle_state DeviceState.idle e = refl
    idle_state _ e = cc

enter-status :
    (o : Opus) (r : SendResult) (d : DeviceState) (a : App)
    → a.device_state ≡ d
    → status (enter o r d a) ≡ target r d a.listening_mode (status a)
unfolding enter enter_idle enter_connecting enter_speaking enter_listening send reset_decoder
enter-status o r DeviceState.unknown a e = ground arith
enter-status o r DeviceState.idle a e = ground arith
enter-status o r DeviceState.connecting a e = ground arith
enter-status o r DeviceState.speaking a e = ground arith
enter-status o sent DeviceState.listening a e = ground arith
enter-status o not_sent DeviceState.listening a e = ground arith
enter-status o (send_failed m) DeviceState.listening a e = ground (
  arith,
  on_network_error-status o m (emit (set_emotion "neutral") (emit (set_status "LISTENING") a)),
)
enter-status o r _ a e = ground arith

target_state :
    (r : SendResult) (d e : DeviceState) (m : ListeningMode) (s : Status)
    → target r d m (record s { device_state = e }) ≡ target r d m s
target_state r DeviceState.unknown e m s = refl
target_state sent DeviceState.listening e m s = refl
target_state not_sent DeviceState.listening e m s = refl
target_state (send_failed x) DeviceState.listening e m s = ground arith
target_state r _ e m s = refl

-- `SetDeviceState` to another state does to the state, the processor and the output what `target`
-- says, whatever the background jobs do meanwhile. To the same state it does nothing at all.
pub set_device_state-status :
    (o : Opus) (r : SendResult) (d : DeviceState) (a : App)
    → (a.device_state ≢ d
        → status (set_device_state o r d a) ≡ target r d a.listening_mode (status a))
      × (a.device_state ≡ d → set_device_state o r d a ≡ a)
unfolding set_device_state
set_device_state-status o r d a =
    elim (DeviceState-discrete a.device_state d)
      as (λ b.
        (a.device_state ≢ d
          → status (elim b [ yes _ ↦ a | no _ ↦ enter o r d (change_state o d a) ])
            ≡ target r d a.listening_mode (status a))
        × (a.device_state ≡ d
            → elim b [ yes _ ↦ a | no _ ↦ enter o r d (change_state o d a) ] ≡ a)) [
              | yes e ↦ (λ ne. absurd (ne e), λ _. refl)
              | no ne ↦ (
                λ _.
                    let (s, m) = change_state-status o d a in
                    enter-status o r d (change_state o d a) (ap (λ (x : Status). x.device_state) s)
                    ∙ rw (s, m) (target_state r d d a.listening_mode (status a)),
                λ e. absurd (ne e),
              )
            ]

speaking_ne :
    (d : DeviceState) → is_speaking d ≡ true → (d ≢ DeviceState.idle) × (d ≢ DeviceState.listening)
speaking_ne DeviceState.speaking h = (λ e. cc, λ e. cc)
speaking_ne _ h = (λ e. cc, λ e. cc)

ne_speaking : (d : DeviceState) → (is_idle d || is_listening d) ≡ true → d ≢ DeviceState.speaking
ne_speaking DeviceState.speaking h = λ e. cc
ne_speaking _ h = λ e. cc

pub set_device_state_connecting :
    (o : Opus) (r : SendResult) (a : App)
    → (set_device_state o r DeviceState.connecting a).device_state ≡ DeviceState.connecting
set_device_state_connecting o r a =
    elim (DeviceState-discrete a.device_state DeviceState.connecting) [
      | yes e ↦ rw ((set_device_state-status o r DeviceState.connecting a).1 e) e
      | no ne ↦
          ap (λ (s : Status). s.device_state)
            ((set_device_state-status o r DeviceState.connecting a).0 ne)
    ]

toggle_chat_state_connecting :
    (o : Opus) (r : SendResult) (a : App)
    → a.device_state ≡ DeviceState.connecting
    → toggle_chat_state o r a ≡ a
unfolding toggle_chat_state
toggle_chat_state_connecting o r a e = ground arith

-- The task of `tts` `stop` leaves speaking, as `target` says: for idle in manual mode and for
-- listening otherwise. It changes no other state, nor the processor or the output in it.
run_tts_stop-status :
    (o : Opus) (r : SendResult) (a : App)
    → status (run_tts_stop o r a) ≡ (
        if is_speaking a.device_state
        then target r
            (if is_manual_stop a.listening_mode then DeviceState.idle else DeviceState.listening)
            a.listening_mode
            (status a)
        else status a)
unfolding run_tts_stop
run_tts_stop-status o r a =
    let b = wait_for_completion o a in
    ground (
      arith,
      wait_for_completion-Keeps o a,
      (set_device_state-status o r DeviceState.idle b).0,
      (set_device_state-status o r DeviceState.listening b).0,
      speaking_ne b.device_state,
    )

-- The task of `tts` `start` enters speaking from idle and from listening, as `target` says, and
-- changes no other state, nor the processor or the output in it.
run_tts_start-status :
    (o : Opus) (r : SendResult) (a : App)
    → status (run_tts_start o r a) ≡ (
        if is_idle a.device_state || is_listening a.device_state
        then target r DeviceState.speaking a.listening_mode (status a)
        else status a)
unfolding run_tts_start
run_tts_start-status o r a = ground (
  arith,
  (set_device_state-status o r DeviceState.speaking (record a { aborted = false })).0,
  ne_speaking a.device_state,
)

-- When the protocol cannot even send its hello, since it has no topic, the task of a toggle leaves
-- the application connecting, where a toggle does nothing at all.
pub toggle_chat_state_stuck :
    (o : Opus) (w : Answers) (r : SendResult) (a : App)
    → w.opening ≡ not_opened
    → ((run_open_chat o w a).device_state ≡ DeviceState.connecting)
      × (toggle_chat_state o r (run_open_chat o w a) ≡ run_open_chat o w a)
unfolding run_open_chat
toggle_chat_state_stuck o w r a e =
    let there : (run_open_chat o w a).device_state ≡ DeviceState.connecting =
      rw (e, run_open_chat) (set_device_state_connecting o w.sending a) in
    (there, toggle_chat_state_connecting o r (run_open_chat o w a) there)
