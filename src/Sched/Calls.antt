-- ===== src/Sched/Calls.antt =====
-- kernel/sched.c: the timer and the calls on the current task keep the scheduler going.
use linux_0_01raf.Prelude.{
  ℕ, zero, suc, ◌≡◌, ◌∙◌, ap, sym, refl, inl, inr, Bool, true, ◌+◌, ◌-◌, ◌%◌, ◌^◌, Option, none,
  some, List, [], ◌∷◌, arith, ◌==◌, if◌then◌else◌, Bool-cases, get_or,
}
use linux_0_01raf.Prelude.Int.{ℤ, pos, negsuc}
use mathlib.Core.Option
use linux_0_01raf.Sched.{
  Task, Tasks, Kernel, update_task, on_current, schedule, task_interruptible, sys_pause, tick,
  counter_of, do_timer, sys_alarm, lt_long, can_catch, sys_nice, sys_signal,
}
use linux_0_01raf.Sched.Choice.{HasPriority, schedule-Chosen}

-- what can happen to the kernel: the timer interrupts, or the current task calls
pub data Event : Type 0 where
  timer : ℕ → Event
  pause : Event
  alarm : ℤ → Event
  nice : ℕ → Event
  signal : ℕ → ℕ → ℕ → Event

unfoldable pub handle : Event → Kernel → Option Kernel
handle (timer cpl) k = do_timer cpl k
handle pause k = sys_pause k
handle (alarm seconds) k = some (on_current (sys_alarm seconds k.jiffies) k)
handle (nice increment) k = some (on_current (sys_nice increment) k)
handle (signal s addr restorer) k = some (on_current (λ t. (sys_signal s addr restorer t).1) k)

unfoldable pub run : List Event → Kernel → Option Kernel
run [] k = some k
run (e ∷ es) k = elim (handle e k) [ none ↦ none | some k' ↦ run es k' ]

sys_nice-priority :
    (increment : ℕ) (t : Task)
    → lt_long 0 t.priority ≡ true
    → lt_long 0 (sys_nice increment t).priority ≡ true
unfolding sys_nice
sys_nice-priority increment t h =
    elim (Bool-cases (lt_long 0 ((t.priority + 2 ^ 32 - increment % 2 ^ 32) % 2 ^ 32))) [
      | inl more ↦ rw (sys_nice, more) more
      | inr less ↦ rw (sys_nice, less) h
    ]

pub get_or-update_task :
    (i j : ℕ) (f : Task → Task) (ts : Tasks)
    → get_or (update_task i f ts) j none
      ≡ (if j == i then Option.map f (get_or ts j none) else get_or ts j none)
unfolding update_task
get_or-update_task i j f [] = ground arith
get_or-update_task zero zero f (none ∷ ts) = ground arith
get_or-update_task zero zero f (some t ∷ ts) = ground arith
get_or-update_task zero (suc j) f (none ∷ ts) = ground arith
get_or-update_task zero (suc j) f (some t ∷ ts) = ground arith
get_or-update_task (suc i) zero f (t ∷ ts) = ground arith
get_or-update_task (suc i) (suc j) f (t ∷ ts) = ground (arith, get_or-update_task i j f ts)

HasPriority-on_current :
    (f : Task → Task) (k : Kernel)
    → ((t : Task) → lt_long 0 t.priority ≡ true → lt_long 0 (f t).priority ≡ true)
    → HasPriority k.task
    → HasPriority (on_current f k).task
HasPriority-on_current f k keep h j t x e = elim (Bool-cases (j == k.current)) [
  | inr other ↦ h j t x (
      sym (
        get_or-update_task k.current j f k.task
        ∙ ap (λ (b : Bool). if b then Option.map f (get_or k.task j none) else get_or k.task j none)
            other)
      ∙ e)
  | inl same ↦ at (get_or k.task j none) refl (
      sym (
        get_or-update_task k.current j f k.task
        ∙ ap (λ (b : Bool). if b then Option.map f (get_or k.task j none) else get_or k.task j none)
            same)
      ∙ e)
]
  where
    at :
        (o : Option Task)
        → get_or k.task j none ≡ o
        → Option.map f o ≡ some t
        → lt_long 0 t.priority ≡ true
    at none there q = cc
    at (some u) there q = let same : f u ≡ t = cc in rw (← same) (keep u (h j u x there))

tick-priority :
    (cpl : ℕ) (t : Task) → lt_long 0 t.priority ≡ true → lt_long 0 (tick cpl t).priority ≡ true
unfolding tick
tick-priority cpl t h = elim (Bool-cases (cpl == 0)) [ inl e ↦ rw e h | inr e ↦ rw e h ]

sys_alarm-priority :
    (seconds : ℤ) (jiffies : ℕ) (t : Task)
    → lt_long 0 t.priority ≡ true
    → lt_long 0 (sys_alarm seconds jiffies t).priority ≡ true
unfolding sys_alarm
sys_alarm-priority (pos n) jiffies t h = h
sys_alarm-priority (negsuc n) jiffies t h = h

sys_signal-priority :
    (s addr restorer : ℕ) (t : Task)
    → lt_long 0 t.priority ≡ true
    → lt_long 0 (sys_signal s addr restorer t).1.priority ≡ true
unfolding sys_signal
sys_signal-priority s addr restorer t h = elim (Bool-cases (can_catch s)) [
  | inl e ↦ rw e h
  | inr e ↦ rw e h
]

-- a call that returns a kernel whose priorities are positive
abbrev pub Goes : Option Kernel → Type 0
Goes r = (k : Kernel) × (r ≡ some k) × HasPriority k.task

schedule-Goes : (k : Kernel) → HasPriority k.task → Goes (schedule k)
schedule-Goes k p = let (k', e, c, p', j) = schedule-Chosen k p in (k', e, p')

do_timer-Goes : (cpl : ℕ) (k : Kernel) → HasPriority k.task → Goes (do_timer cpl k)
unfolding do_timer
do_timer-Goes cpl k p =
    elim (Bool-cases (lt_long 0 (counter_of (get_or ticked.task k.current none)))) [
      | inl more ↦ (ticked, rw (do_timer, more), kept)
      | inr less ↦ elim (Bool-cases (cpl == 0)) [
        | inl system ↦ (over, rw (do_timer, less) (rw system), over_kept)
        | inr user ↦
            let (k', e, p') = schedule-Goes over over_kept in
            (k', rw (do_timer, less) (rw user e), p')
      ]
    ]
  where
    ticked : Kernel
    ticked = on_current (tick cpl) k

    kept : HasPriority ticked.task
    kept = HasPriority-on_current (tick cpl) k (tick-priority cpl) p

    over : Kernel
    over = on_current (λ t. record t { counter = 0 }) ticked

    over_kept : HasPriority over.task
    over_kept = HasPriority-on_current (λ t. record t { counter = 0 }) ticked (λ t h. h) kept

handle-Goes : (e : Event) (k : Kernel) → HasPriority k.task → Goes (handle e k)
unfolding handle sys_pause
handle-Goes (timer cpl) k p = do_timer-Goes cpl k p
handle-Goes pause k p =
    schedule-Goes (on_current (λ t. record t { state = task_interruptible }) k)
      (HasPriority-on_current (λ t. record t { state = task_interruptible }) k (λ t h. h) p)
handle-Goes (alarm seconds) k p = (
  on_current (sys_alarm seconds k.jiffies) k,
  refl,
  HasPriority-on_current (sys_alarm seconds k.jiffies) k (sys_alarm-priority seconds k.jiffies) p,
)
handle-Goes (nice increment) k p = (
  on_current (sys_nice increment) k,
  refl,
  HasPriority-on_current (sys_nice increment) k (sys_nice-priority increment) p,
)
handle-Goes (signal s addr restorer) k p = (
  on_current (λ t. (sys_signal s addr restorer t).1) k,
  refl,
  HasPriority-on_current (λ t. (sys_signal s addr restorer t).1) k
      (sys_signal-priority s addr restorer) p,
)

-- The scheduler never loops for ever. From a table in which every task but task 0 has a positive
-- priority, any sequence of timer interrupts and of calls of `pause`, `alarm`, `nice` and `signal`, with
-- any arguments, runs to its end, and the priorities are positive again: `nice` cannot make one 0. The
-- counters, the priorities and the arguments of `nice` are longs of 32 bits that wrap around.
pub run-Goes : (es : List Event) (k : Kernel) → HasPriority k.task → Goes (run es k)
unfolding run
run-Goes [] k p = (k, refl, p)
run-Goes (e ∷ es) k p =
    let (k', r, p') = handle-Goes e k p in
    let (k'', r', p'') = run-Goes es k' p' in (k'', rw (run, r) r', p'')
