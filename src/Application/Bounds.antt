-- ===== src/Application/Bounds.antt =====
-- application.cc: what the background jobs leave alone, and the bound on the decode queue.
use xiaozhi_pc.Base.{◌≡◌, List, [], ◌∷◌, arith}
use xiaozhi_pc.Application.State.{DeviceState, BackgroundJob, encode, decode, Opus, App}
use xiaozhi_pc.Application.Audio.{run_job, run_jobs, wait_for_completion}
use xiaozhi_pc.Application.Device.{change_state}

-- What a background job never changes.
pub record Keeps (a b : App) : Type 0 where
  pub device_state : b.device_state ≡ a.device_state
  pub listening_mode : b.listening_mode ≡ a.listening_mode
  pub aborted : b.aborted ≡ a.aborted
  pub processor_running : b.processor_running ≡ a.processor_running
  pub output_enabled : b.output_enabled ≡ a.output_enabled
  pub audio_decode_queue : b.audio_decode_queue ≡ a.audio_decode_queue

pub run_job-Keeps : (o : Opus) (j : BackgroundJob) (a : App) → Keeps a (run_job o j a)
unfolding run_job
run_job-Keeps o (encode pcm) a = ground arith
run_job-Keeps o (decode packet) a = ground arith

run_jobs-Keeps : (o : Opus) (js : List BackgroundJob) (a : App) → Keeps a (run_jobs o js a)
unfolding run_jobs
run_jobs-Keeps o [] a = ground arith
run_jobs-Keeps o (j ∷ js) a =
    ground (arith, run_job-Keeps o j a, run_jobs-Keeps o js (run_job o j a))

pub wait_for_completion-Keeps : (o : Opus) (a : App) → Keeps a (wait_for_completion o a)
unfolding wait_for_completion
wait_for_completion-Keeps o a =
    ground (arith, run_jobs-Keeps o a.background (record a { background = [] }))

pub change_state-Keeps :
    (o : Opus) (s : DeviceState) (a : App)
    → Keeps (record a { device_state = s }) (change_state o s a)
unfolding change_state
change_state-Keeps o s a =
    ground (arith, wait_for_completion-Keeps o (record a { device_state = s }))
