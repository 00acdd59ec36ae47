-- ===== src/Application/Coherent.antt =====
-- application.cc: the audio processor follows the device state.
use Prim.Native.String.{String}
use xiaozhi_pc.Base.{◌≡◌, refl, ◌∙◌, ap, Bool, true, false, not, ◌&&◌, ◌||◌, arith}
use xiaozhi_pc.Application.State.{DeviceState, ListeningMode, Opus, App}
use xiaozhi_pc.Application.Audio.{is_idle, reset_decoder}
use xiaozhi_pc.Application.Device.{
  SendResult, sent, not_sent, send_failed, change_state, set_idle, alert, on_network_error, send,
  enter_listening, enter, set_device_state, enter_idle, enter_connecting, enter_speaking,
  DeviceState-discrete, is_realtime,
}
use xiaozhi_pc.Application.Transitions.{
  Status, status, target, set_device_state-status, on_network_error-status, change_state-status,
}

-- Idle or unknown, the processor is stopped; listening, it runs; speaking, it runs in realtime mode
-- only.
abbrev pub coherent : DeviceState → Bool → ListeningMode → Bool
coherent DeviceState.unknown running m = not running
coherent DeviceState.idle running m = not running
coherent DeviceState.listening running m = running
coherent DeviceState.speaking running m = not running || is_realtime m
coherent _ running m = true

abbrev pub IsCoherent : App → Type 0
IsCoherent a = coherent a.device_state a.processor_running a.listening_mode ≡ true

abbrev pub IsNoFailure : SendResult → Type 0
IsNoFailure (send_failed m) = ⊥
IsNoFailure r = Unit {0}

target-coherent :
    (r : SendResult) (d : DeviceState) (m : ListeningMode) (s : Status)
    → IsNoFailure r
    → coherent d (target r d m s).running m ≡ true
target-coherent sent DeviceState.unknown m s h = refl
target-coherent sent DeviceState.idle m s h = refl
target-coherent sent DeviceState.listening m s h = refl
target-coherent sent DeviceState.speaking m s h = ground arith
target-coherent sent _ m s h = refl
target-coherent not_sent DeviceState.unknown m s h = refl
target-coherent not_sent DeviceState.idle m s h = refl
target-coherent not_sent DeviceState.listening m s h = refl
target-coherent not_sent DeviceState.speaking m s h = ground arith
target-coherent not_sent _ m s h = refl
target-coherent (send_failed e) d m s h = elim h [ ]

-- What the predicate looks at.
pub record Same (a b : App) : Type 0 where
  pub device_state : b.device_state ≡ a.device_state
  pub running : b.processor_running ≡ a.processor_running
  pub mode : b.listening_mode ≡ a.listening_mode

pub Same-IsCoherent : (a b : App) → Same a b → IsCoherent a → IsCoherent b
Same-IsCoherent a b s h = rw (s.device_state, s.running, s.mode) h

idle_stopped :
    (d : DeviceState) (running : Bool) (m : ListeningMode)
    → coherent d running m ≡ true
    → (is_idle d && running) ≡ false
idle_stopped DeviceState.idle running m h = ground arith
idle_stopped _ running m h = refl

on_network_error-mode :
    (o : Opus) (m : String) (a : App) → (on_network_error o m a).listening_mode ≡ a.listening_mode
unfolding on_network_error set_idle enter_idle alert reset_decoder
on_network_error-mode o m a = ground (arith, change_state-status o DeviceState.idle a)

pub on_network_error-IsCoherent :
    (o : Opus) (m : String) (a : App) → IsCoherent a → IsCoherent (on_network_error o m a)
on_network_error-IsCoherent o m a h =
    let e = on_network_error-status o m a in
    Same-IsCoherent (record a { device_state = DeviceState.idle; processor_running = false })
      (on_network_error o m a)
      (record {
        device_state = ap (λ (x : Status). x.device_state) e;
        running =
            ap (λ (x : Status). x.running) e
            ∙ idle_stopped a.device_state a.processor_running a.listening_mode h;
        mode = on_network_error-mode o m a;
      })
      refl

enter-mode :
    (o : Opus) (r : SendResult) (d : DeviceState) (a : App)
    → IsNoFailure r
    → (enter o r d a).listening_mode ≡ a.listening_mode
unfolding enter enter_idle enter_connecting enter_speaking enter_listening send reset_decoder
enter-mode o r DeviceState.unknown a h = refl
enter-mode o r DeviceState.idle a h = refl
enter-mode o r DeviceState.connecting a h = refl
enter-mode o r DeviceState.speaking a h = ground arith
enter-mode o sent DeviceState.listening a h = ground arith
enter-mode o not_sent DeviceState.listening a h = ground arith
enter-mode o (send_failed m) DeviceState.listening a h = elim h [ ]
enter-mode o r _ a h = refl

target_device_state :
    (r : SendResult) (d : DeviceState) (m : ListeningMode) (s : Status)
    → IsNoFailure r
    → (target r d m s).device_state ≡ d
target_device_state sent DeviceState.unknown m s h = refl
target_device_state sent DeviceState.listening m s h = refl
target_device_state sent _ m s h = refl
target_device_state not_sent DeviceState.unknown m s h = refl
target_device_state not_sent DeviceState.listening m s h = refl
target_device_state not_sent _ m s h = refl
target_device_state (send_failed e) d m s h = elim h [ ]

set_device_state-mode :
    (o : Opus) (r : SendResult) (d : DeviceState) (a : App)
    → IsNoFailure r
    → (set_device_state o r d a).listening_mode ≡ a.listening_mode
unfolding set_device_state
set_device_state-mode o r d a f =
    ground (arith, enter-mode o r d (change_state o d a) f, change_state-status o d a)

pub set_device_state-IsCoherent :
    (o : Opus) (r : SendResult) (d : DeviceState) (a : App)
    → IsNoFailure r
    → IsCoherent a
    → IsCoherent (set_device_state o r d a)
set_device_state-IsCoherent o r d a f h = elim (DeviceState-discrete a.device_state d) [
  | yes e ↦ rw ((set_device_state-status o r d a).1 e) h
  | no ne ↦
      let e = (set_device_state-status o r d a).0 ne in
      Same-IsCoherent
        (record a {
          device_state = d;
          processor_running = (target r d a.listening_mode (status a)).running;
        })
        (set_device_state o r d a)
        (record {
          device_state =
              ap (λ (x : Status). x.device_state) e
              ∙ target_device_state r d a.listening_mode (status a) f;
          running = ap (λ (x : Status). x.running) e;
          mode = set_device_state-mode o r d a f;
        })
        (target-coherent r d a.listening_mode (status a) f)
]
