-- ===== src/Examples/Threads.antt =====
-- The threads: the background task, the main loop and the UDP client.
use xiaozhi_pc.Base.{◌≡◌, ◌≢◌, refl, true, false, some, [], ◌++◌}
use xiaozhi_pc.BackgroundTask as Background
use xiaozhi_pc.BackgroundTask.{BackgroundTask, is_complete, schedule, take_batch, call, finish}
use xiaozhi_pc.BackgroundTask.Completion.{called-eq-scheduled, Step-notifies, completes, Works}
use xiaozhi_pc.MainLoop as Loop
use xiaozhi_pc.MainLoop.{
  MainLoop, waiting, push_task, set_bit, wake, take_tasks, run_task, wait_again,
}
use xiaozhi_pc.MainLoop.Delivery.{ran-append, waiting_idle}
use xiaozhi_pc.UdpClient as Udp
use xiaozhi_pc.UdpClient.{Client, owner, disconnecting, joining, returned, receiving, exited}
use xiaozhi_pc.UdpClient.{connect, good_address, failed, leave, destroyed, after_recv}
use xiaozhi_pc.UdpClient.Lifetime.{started_not_destroyed}
use xiaozhi_pc.EventGroup.{Bits, satisfied, set_bits, end_wait, bits_and, bits_eq}
use xiaozhi_pc.EventGroup.Waiting.{AreDisjoint, satisfied_kept, schedule_event, schedule_event_lem}
use xiaozhi_pc.Display.Startup as Startup
use xiaozhi_pc.Display.Startup.{Startup, tell}
use xiaozhi_pc.Display.Startup.Returns.{start_returned}
use xiaozhi_pc.Display.Window.{start_result}
use xiaozhi_pc.Base.{get_or, replicate, ◌∷◌}
use xiaozhi_pc.UdpClient.Deadlock.{disconnect_never_returns}

-- A job is scheduled, a second one while the first is run.
abbrev two_jobs : BackgroundTask
unfolding schedule take_batch call
two_jobs = schedule 8 (call 7 [] (take_batch (schedule 7 Background.initial)))

two_jobs-Reach : Background.Reach Background.initial two_jobs
unfolding schedule take_batch call
two_jobs-Reach =
    Background.next
      (Background.next
        (Background.next (Background.next Background.here (Background.schedules 7 refl))
          (Background.takes refl refl (λ e. cc)))
        (Background.calls 7 [] refl refl))
      (Background.schedules 8 refl)

abbrev called_two : BackgroundTask
unfolding schedule take_batch call finish
called_two = call 8 [] (take_batch (finish two_jobs))

called_two-Reach : Background.Reach Background.initial called_two
unfolding schedule take_batch call finish
called_two-Reach =
    Background.next
      (Background.next (Background.next two_jobs-Reach (Background.finishes 7 refl))
        (Background.takes refl refl (λ e. cc)))
      (Background.calls 8 [] refl refl)

completes_example : (c : BackgroundTask) × Works two_jobs c × (is_complete c ≡ true)
completes_example = completes two_jobs two_jobs-Reach

finished-Reach : Background.Reach Background.initial (finish called_two)
unfolding finish called_two
finished-Reach = Background.next called_two-Reach (Background.finishes 8 refl)

finished_complete : is_complete (finish called_two) ≡ true
unfolding schedule take_batch call finish
finished_complete = refl

not_complete : is_complete called_two ≡ false
unfolding schedule take_batch call finish
not_complete = refl

last-Step : Background.Step called_two (is_complete (finish called_two)) (finish called_two)
unfolding called_two
last-Step = Background.finishes 8 refl

called-eq-scheduled_example : (finish called_two).called ≡ (finish called_two).scheduled
called-eq-scheduled_example =
    called-eq-scheduled (finish called_two) finished-Reach finished_complete

Step-notifies_example : is_complete (finish called_two) ≡ true
Step-notifies_example =
    Step-notifies called_two (finish called_two) (is_complete (finish called_two)) called_two-Reach
      last-Step not_complete finished_complete

-- A task is scheduled and run, and the loop waits again.
abbrev one_task : MainLoop
unfolding push_task set_bit wake take_tasks run_task wait_again
one_task = wait_again (run_task 5 [] (take_tasks (wake (set_bit 0 (push_task 5 Loop.initial)))))

one_task-Reach : Loop.Reach Loop.initial one_task
unfolding push_task set_bit wake take_tasks run_task wait_again
one_task-Reach =
    Loop.next
      (Loop.next
        (Loop.next
          (Loop.next (Loop.next (Loop.next Loop.here (Loop.pushes 5)) (Loop.sets 0 refl))
            (Loop.wakes refl refl))
          (Loop.takes refl))
        (Loop.runs 5 [] refl refl))
      (Loop.waits refl refl)

ran-append_example : one_task.ran ++ (one_task.tasks ++ one_task.main_tasks) ≡ one_task.scheduled
ran-append_example = ran-append one_task one_task-Reach

one_task_waits :
    (one_task.loop_at ≡ waiting) × (one_task.schedule_event ≡ false) × (one_task.setting ≡ 0)
unfolding push_task set_bit wake take_tasks run_task wait_again
one_task_waits = (refl, refl, refl)

waiting_idle_example : one_task.ran ≡ one_task.scheduled
waiting_idle_example =
    waiting_idle one_task one_task-Reach one_task_waits.0 one_task_waits.1 one_task_waits.2

-- `Disconnect` comes while the receiver is in `recv`.
abbrev disconnected : Client
disconnected = record {
  connected = false;
  has_socket = true;
  mutex = some owner;
  owner_at = disconnecting;
  receiver_at = receiving;
  joinable = true;
  in_destructor = true;
  started = true;
  sent = [];
}

abbrev joins : Client
joins = record disconnected { has_socket = false; owner_at = joining }

receiving_not_exited : disconnected.receiver_at ≢ exited
receiving_not_exited e = cc

joins-Reach : Udp.Reach disconnected joins
joins-Reach = Udp.next Udp.here (Udp.closes_socket refl)

disconnect_never_returns_example : joins.owner_at ≢ returned
disconnect_never_returns_example =
    disconnect_never_returns disconnected joins refl refl receiving_not_exited joins-Reach

-- A client connects, and its receiver ends on an error of `recv`; then the destructor comes.
abbrev connected : Client
unfolding connect
connected = (connect good_address Udp.initial).1

abbrev failed_client : Client
unfolding connect
failed_client = record connected {
  connected = false;
  receiver_at = exited;
  in_destructor = true;
  owner_at = returned;
}

failed_client-Reach : Udp.Reach Udp.initial (leave failed_client)
unfolding connect after_recv leave
failed_client-Reach =
    Udp.next
      (Udp.next
        (Udp.next
          (Udp.next
            (Udp.next
              (Udp.next
                (Udp.next (Udp.next Udp.here (Udp.connects good_address refl refl refl))
                  (Udp.checks_top refl refl refl))
                (Udp.receives refl))
              (Udp.goes_on failed refl refl refl))
            (Udp.exits refl refl))
          (Udp.destroys refl refl))
        (Udp.disconnects_idle refl refl refl))
      (Udp.leaves refl)

failed_client_started : (leave failed_client).started ≡ true
unfolding leave connect
failed_client_started = refl

started_not_destroyed_example : (leave failed_client).owner_at ≢ destroyed
started_not_destroyed_example =
    started_not_destroyed (leave failed_client) failed_client-Reach failed_client_started

abbrev bit_1 : Bits
bit_1 = false ∷ true ∷ replicate 62 false

abbrev both_bits : Bits
both_bits = true ∷ true ∷ replicate 62 false

both_satisfied : satisfied true schedule_event both_bits ≡ true
unfolding satisfied bits_and bits_eq
both_satisfied = refl

satisfied_kept_example :
    (satisfied true schedule_event (set_bits bit_1 both_bits).1 ≡ true)
    × (AreDisjoint bit_1 schedule_event
        → satisfied true schedule_event (end_wait true bit_1 both_bits).1 ≡ true)
satisfied_kept_example = satisfied_kept true true schedule_event bit_1 both_bits refl both_satisfied

schedule_event_lem_test :
    (satisfied false schedule_event bit_1 ≡ false)
    × (get_or (end_wait true schedule_event bit_1).1 0 false ≡ (wake Loop.initial).schedule_event)
    × (get_or (set_bits schedule_event bit_1).1 0 false ≡ (set_bit 0 Loop.initial).schedule_event)
schedule_event_lem_test = schedule_event_lem bit_1 0 Loop.initial refl refl

-- The window cannot be made.
abbrev window_failed : Startup
window_failed = record {
  inited = true;
  init_success = false;
  thread_at = Startup.ended;
  starter_at = Startup.returned false;
  sdl_quit = true;
  requests = [];
}

window_failed-Reach : Startup.Reach true false Startup.initial window_failed
unfolding tell Startup.notify_one
window_failed-Reach =
    Startup.next
      (Startup.next
        (Startup.next
          (Startup.next (Startup.next Startup.here (Startup.spawns refl))
            (Startup.sleeps refl refl))
          (Startup.window_fails refl refl refl))
        (Startup.passes refl refl))
      (Startup.joins refl refl refl)

start_returned_test :
    (false ≡ start_result true false) × (false ≡ false → window_failed.thread_at ≡ Startup.ended)
start_returned_test = start_returned true false window_failed false window_failed-Reach refl
