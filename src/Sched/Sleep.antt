-- ===== src/Sched/Sleep.antt =====
-- From sleep_until to tick_sleep_queue of kernel/src/sched/mod.rs: who wakes a task that sleeps.
pub mod Effects
use karte_os.Base.{
  ℕ, ◌≤◌, ◌<◌, Bool, true, false, ◌&&◌, ◌||◌, not, Option, some, List, [], ◌∷◌, ◌==◌, if◌then◌else◌,
  get_elem?, set, ◌≡◌, refl, ap, sym, ◌∙◌, arith, ◌≢◌, inl, inr, leb, Bool-cases, Option-cases,
}
use karte_os.Sched.ReadyQueue.{ReadyQueue, remove, pop_next, contains}
use karte_os.Sched.ReadyQueue.Counts.{Popped, popped, none_ready, pop_next-Popped, queued-remove}
use karte_os.Sched.Core.{
  TaskNode, ready, running, blocked, is_user, Scheduler, is_ready, is_blocked, with_state,
  wake_slot, wake_slots, tick_sleep_queue, sleep_until, put_sleep, due_slots, not_due_yet,
  schedule_block, dispatch_or_idle, dispatch, is_slot_active, queue_sleep,
}
use karte_os.Sched.Invariant.Table.{Table, at_node, at_node-set, at_node-here, is_of, is_idle}
use karte_os.Sched.Invariant.Consistent.{IsConsistent, node_there, dispatch_lem}
use karte_os.Sched.Invariant.Turns.{stop_current, schedule_block_lem, removed_counts}
use karte_os.Sched.Invariant.Waking.{
  sleepq-IsConsistent, wake_slot_lem, wake_slot-none, tick_sleep_queue-IsConsistent,
}
use karte_os.Sched.Sleep.Effects.{
  schedule_block_blocked, wake_slots_at, wake_slots-sleepq, wake_slots-keeps,
}

-- Whether a slot has an entry in the sleep queue.
unfoldable pub sleeps : List (ℕ × ℕ) → ℕ → Bool
sleeps [] slot = false
sleeps ((s, t) ∷ q) slot = s == slot || sleeps q slot

due_slots-put_sleep :
    (q : List (ℕ × ℕ)) (slot wake_tick now : ℕ)
    → wake_tick ≤ now
    → contains (due_slots now (put_sleep q slot wake_tick)) slot ≡ true
unfolding due_slots put_sleep contains
due_slots-put_sleep [] slot wake_tick now h = ground arith
due_slots-put_sleep ((s, t) ∷ q) slot wake_tick now h =
    ground (arith, due_slots-put_sleep q slot wake_tick now h)

not_due_yet-put_sleep :
    (q : List (ℕ × ℕ)) (slot wake_tick now : ℕ)
    → sleeps q slot ≡ false
    → wake_tick ≤ now
    → sleeps (not_due_yet now (put_sleep q slot wake_tick)) slot ≡ false
unfolding not_due_yet put_sleep sleeps
not_due_yet-put_sleep [] slot wake_tick now h le = ground arith
not_due_yet-put_sleep ((s, t) ∷ q) slot wake_tick now h le =
    ground (arith, not_due_yet-put_sleep q slot wake_tick now)

due_slots_absent :
    (q : List (ℕ × ℕ)) (slot now : ℕ)
    → sleeps q slot ≡ false
    → contains (due_slots now q) slot ≡ false
unfolding due_slots sleeps contains
due_slots_absent [] slot now h = refl
due_slots_absent ((s, t) ∷ q) slot now h = ground (arith, due_slots_absent q slot now)

active_lem :
    (s : Scheduler) (slot p : ℕ)
    → at_node (is_of p) s.nodes slot ≡ true
    → is_slot_active s slot ≡ true
unfolding is_slot_active
active_lem s slot p own = ground arith

-- Going to sleep in a slot that the sleep queue does not name.
sleep_until_lem :
    (s : Scheduler) (p now wake_tick : ℕ)
    → IsConsistent s
    → s.current_running ≡ s.current
    → at_node (is_of p) s.nodes s.current ≡ true
    → now < wake_tick
    → (at_node is_blocked (sleep_until s now wake_tick).nodes s.current ≡ true)
      × ((sleep_until s now wake_tick).sleepq ≡ put_sleep s.sleepq s.current wake_tick)
unfolding sleep_until
sleep_until_lem s p now wake_tick c here own before =
    let late : leb wake_tick now ≡ false = ground arith in
    let slot = s.current_running in
    let active : is_slot_active s slot ≡ true = active_lem s slot p (rw here own) in
    let (b, q) =
      schedule_block_blocked (queue_sleep s slot wake_tick) p
        (sleepq-IsConsistent s (put_sleep s.sleepq slot wake_tick) c) own in
    rw (late, active) (b, q ∙ ap (λ i. put_sleep s.sleepq i wake_tick) here)

not_due_yet_absent :
    (q : List (ℕ × ℕ)) (slot now : ℕ)
    → sleeps q slot ≡ false
    → sleeps (not_due_yet now q) slot ≡ false
unfolding not_due_yet sleeps
not_due_yet_absent [] slot now h = refl
not_due_yet_absent ((s, t) ∷ q) slot now h = ground (arith, not_due_yet_absent q slot now)

-- The task at a slot is blocked, and the sleep queue does not name it.
pub record Lost (s : Scheduler) (slot : ℕ) : Type 0 where
  pub blocks : at_node is_blocked s.nodes slot ≡ true
  pub unnamed : sleeps s.sleepq slot ≡ false

-- A run of the timer: the tick, and whether it gets the lock of the sleep queue and the scheduler's.
pub record TimerRun : Type 0 where
  pub now : ℕ
  pub sleepq_free : Bool
  pub sched_free : Bool

unfoldable pub timer_runs : Scheduler → List TimerRun → Scheduler
timer_runs s [] = s
timer_runs s (r ∷ rs) = timer_runs (tick_sleep_queue s r.now r.sleepq_free r.sched_free) rs

tick_sleep_queue-Lost :
    (s : Scheduler) (slot now : ℕ) (sleepq_free sched_free : Bool)
    → Lost s slot
    → Lost (tick_sleep_queue s now sleepq_free sched_free) slot
unfolding tick_sleep_queue
tick_sleep_queue-Lost s slot now false sched_free l = l
tick_sleep_queue-Lost s slot now true false l = record {
  blocks = l.blocks;
  unnamed = not_due_yet_absent s.sleepq slot now l.unnamed;
}
tick_sleep_queue-Lost s slot now true true l =
    let due = due_slots now s.sleepq in
    let drained : Scheduler = record s { sleepq = not_due_yet now s.sleepq } in
    let never : contains due slot ≡ false = due_slots_absent s.sleepq slot now l.unnamed in
    record {
      blocks = (wake_slots_at due drained slot).0 ∙ rw (l.blocks, never) refl;
      unnamed =
          ap (λ q. sleeps q slot) (wake_slots-sleepq due drained)
          ∙ not_due_yet_absent s.sleepq slot now l.unnamed;
    }

timer_runs-Lost :
    (rs : List TimerRun) (s : Scheduler) (slot : ℕ) → Lost s slot → Lost (timer_runs s rs) slot
unfolding timer_runs
timer_runs-Lost [] s slot l = l
timer_runs-Lost (r ∷ rs) s slot l =
    timer_runs-Lost rs (tick_sleep_queue s r.now r.sleepq_free r.sched_free) slot
      (tick_sleep_queue-Lost s slot r.now r.sleepq_free r.sched_free l)

-- The timer takes the entry of the current task out before the task blocks.
early_timer-Lost :
    (s : Scheduler) (p wake_tick now : ℕ)
    → IsConsistent s
    → at_node (is_of p) s.nodes s.current ≡ true
    → sleeps s.sleepq s.current ≡ false
    → wake_tick ≤ now
    → Lost
        (schedule_block (tick_sleep_queue (queue_sleep s s.current wake_tick) now true true))
        s.current
unfolding tick_sleep_queue
early_timer-Lost s p wake_tick now c own fresh due =
    let q = put_sleep s.sleepq s.current wake_tick in
    let drained : Scheduler = record s { sleepq = not_due_yet now q } in
    let slots = due_slots now q in
    let ticked = wake_slots drained slots in
    let (o, cur) = wake_slots-keeps slots drained p s.current in
    let consistent : IsConsistent ticked =
      unfold tick_sleep_queue in
      tick_sleep_queue-IsConsistent (queue_sleep s s.current wake_tick) now true true
        (sleepq-IsConsistent s q c) in
    let own' : at_node (is_of p) ticked.nodes ticked.current ≡ true =
      ap (at_node (is_of p) ticked.nodes) cur ∙ o ∙ own in
    let (b, e) = schedule_block_blocked ticked p consistent own' in
    let gone : sleeps (not_due_yet now q) s.current ≡ false =
      not_due_yet-put_sleep s.sleepq s.current wake_tick now fresh due in
    record {
      blocks = sym (ap (at_node is_blocked (schedule_block ticked).nodes) cur) ∙ b;
      unnamed = ap (λ z. sleeps z s.current) (e ∙ wake_slots-sleepq slots drained) ∙ gone;
    }

-- In a consistent scheduler, the current task, a user task without an entry in the sleep queue,
-- sleeps until a tick to come, and the timer runs at or after that tick. With both locks it
-- makes the task ready. With the lock of the sleep queue alone it leaves the task blocked and
-- without an entry, and so does any list of runs of the timer after that. If it runs with both
-- locks after the entry is made and before the task blocks, the task is then blocked and
-- without an entry after any list of further runs.
pub sleeper :
    (s : Scheduler) (p now wake_tick later : ℕ) (rs : List TimerRun)
    → IsConsistent s
    → s.current_running ≡ s.current
    → at_node (is_of p) s.nodes s.current ≡ true
    → sleeps s.sleepq s.current ≡ false
    → now < wake_tick
    → wake_tick ≤ later
    → let t = sleep_until s now wake_tick in
      let missed = tick_sleep_queue t later true false in
      (at_node is_ready (tick_sleep_queue t later true true).nodes s.current ≡ true)
      × Lost missed s.current
      × Lost (timer_runs missed rs) s.current
      × Lost
          (timer_runs
            (schedule_block (tick_sleep_queue (queue_sleep s s.current wake_tick) later true true))
            rs)
          s.current
unfolding tick_sleep_queue
sleeper s p now wake_tick later rs c here own fresh before due =
    let t = sleep_until s now wake_tick in
    let (b, q) = sleep_until_lem s p now wake_tick c here own before in
    let rest = not_due_yet later t.sleepq in
    let in_due : contains (due_slots later t.sleepq) s.current ≡ true =
      rw q (due_slots-put_sleep s.sleepq s.current wake_tick later due) in
    let gone : sleeps rest s.current ≡ false =
      rw q (not_due_yet-put_sleep s.sleepq s.current wake_tick later fresh due) in
    let lost : Lost (record t { sleepq = rest }) s.current = record {
      blocks = b;
      unnamed = gone;
    } in
    let (b1, r1) =
      wake_slots_at (due_slots later t.sleepq) (record t { sleepq = rest }) s.current in
    (
      r1 ∙ ground arith,
      lost,
      timer_runs-Lost rs (record t { sleepq = rest }) s.current lost,
      timer_runs-Lost rs _ s.current (early_timer-Lost s p wake_tick later c own fresh due),
    )
