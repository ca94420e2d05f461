-- ===== src/Tests/Scheduling.antt =====
-- The scheduler at concrete inputs.
use karte_os.Base.{List, ℕ, ◌≤◌, true, false, none, some, ◌≡◌, ◌⊎◌, refl, arith, List, [], ◌∷◌}
use karte_os.Sched.ReadyQueue.{
  new, contains, push, pop_next, promote, pick_next, pick_from, starved_after,
}
use karte_os.Sched.ReadyQueue.Counts.{queued, one_if, count}
use karte_os.Base.Bits.{trailing_zeros}
use karte_os.Sched.Class.{priority}
use karte_os.Sched.Core.{
  Scheduler, init, new_idle, new_user, take_slot, take_slot_from, proc_slot_set, dispatch,
  dispatch_first, no_slot, proc_slot_get, allocate_user_slot, start_first_task, is_ready,
  is_empty_kind, sleep_until, tick_sleep_queue, queue_sleep, schedule_block,
}
use karte_os.Sched.Invariant.Table.{at_node, runs_user, is_of}
use karte_os.Sched.Invariant.Reach.{Reach, booted, later, spawn, first, Reach-IsConsistent, reached}
use karte_os.Sched.Sleep.{Lost, TimerRun, timer_runs, sleeps, sleeper}

-- Process 5 has a task.
abbrev spawned : Scheduler
spawned = (allocate_user_slot init 5 4096 8192).1

-- It runs.
abbrev started : Scheduler
started = elim (start_first_task spawned) [ none ↦ spawned | some s ↦ s ]

starts : start_first_task spawned ≡ some started
unfolding start_first_task dispatch_first allocate_user_slot init new_idle new_user take_slot
    take_slot_from proc_slot_set dispatch pop_next promote pick_next pick_from starved_after push
    contains new priority trailing_zeros
starts = refl

-- The idle task has the processor.
idles : spawned.current ≡ 0
unfolding allocate_user_slot init take_slot take_slot_from proc_slot_set
idles = refl

started-Reach : Reach started
started-Reach = later (later booted (spawn 5 4096 8192)) (first idles starts)

reached_example :
    ((t : ℕ) → queued started.queue.queues t ≡ one_if (at_node is_ready started.nodes t))
    × ((t : ℕ) → count started.free t ≤ one_if (at_node is_empty_kind started.nodes t))
    × ((t : ℕ) → at_node runs_user started.nodes t ≡ true → t ≡ started.current)
    × ((p : ℕ)
        → (proc_slot_get started p ≡ no_slot)
          ⊎ (at_node (is_of p) started.nodes (proc_slot_get started p) ≡ true))
reached_example = reached started-Reach

-- The task of process 5 sleeps until tick 20, and the timer runs at 30, 40 and 50.
abbrev later_runs : List TimerRun
later_runs =
    record { now = 40; sleepq_free = true; sched_free = true }
    ∷ record { now = 50; sleepq_free = true; sched_free = true }
    ∷ []

here : started.current_running ≡ started.current
unfolding start_first_task dispatch_first allocate_user_slot init new_idle new_user take_slot
    take_slot_from proc_slot_set dispatch pop_next promote pick_next pick_from starved_after push
    contains new priority trailing_zeros
here = refl

own : at_node (is_of 5) started.nodes started.current ≡ true
unfolding start_first_task dispatch_first allocate_user_slot init new_idle new_user take_slot
    take_slot_from proc_slot_set dispatch pop_next promote pick_next pick_from starved_after push
    contains new priority trailing_zeros
own = refl

awake : sleeps started.sleepq started.current ≡ false
unfolding start_first_task dispatch_first allocate_user_slot init new_idle new_user take_slot
    take_slot_from proc_slot_set dispatch pop_next promote pick_next pick_from starved_after push
    contains new priority trailing_zeros sleeps
awake = refl

sleeper_example :
    let t = sleep_until started 10 20 in
    let missed = tick_sleep_queue t 30 true false in
    (at_node is_ready (tick_sleep_queue t 30 true true).nodes started.current ≡ true)
    × Lost missed started.current
    × Lost (timer_runs missed later_runs) started.current
    × Lost
        (timer_runs
          (schedule_block (tick_sleep_queue (queue_sleep started started.current 20) 30 true true))
          later_runs)
        started.current
sleeper_example =
    sleeper started 5 10 20 30 later_runs (Reach-IsConsistent started-Reach) here own awake
      (omega arith) (omega arith)
