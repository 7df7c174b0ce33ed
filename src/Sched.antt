-- ===== src/Sched.antt =====
-- kernel/sched.c and include/linux/sched.h: the task table, the scheduler, the timer and the small
-- calls on the current task. A pointer to a task is its index in the table.
pub mod Choice
pub mod Calls
pub mod Sleep
pub mod Signals
pub mod Ids
pub mod Fork
pub mod Pids
use linux_0_01raf.Prelude.{
  ℕ, zero, suc, ◌+◌, ◌-◌, ◌*◌, ◌/◌, ◌%◌, ◌^◌, Bool, true, false, not, ◌&&◌, ◌||◌, Option, none,
  some, List, [], ◌∷◌, ltb, leb, ◌==◌, if◌then◌else◌, get_or, set,
}
use linux_0_01raf.Prelude.Int.{ℤ, pos, negsuc}

abbrev pub nr_tasks : ℕ
nr_tasks = 64

abbrev pub hz : ℕ
hz = 100

-- the values of `state`
abbrev pub task_running : ℕ
task_running = 0

abbrev pub task_interruptible : ℕ
task_interruptible = 1

abbrev pub task_uninterruptible : ℕ
task_uninterruptible = 2

abbrev pub task_zombie : ℕ
task_zombie = 3

-- include/signal.h
abbrev pub sigalrm : ℕ
sigalrm = 14

abbrev pub sigchld : ℕ
sigchld = 17

-- `struct task_struct`, without what only the processor reads. `counter` and `priority` are longs, as the
-- patterns of their 32 bits.
pub record Task : Type 0 where
  pub state : ℕ
  pub counter : ℕ
  pub priority : ℕ
  pub signal : ℕ
  pub sig_restorer : ℕ
  pub sig_fn : List ℕ
  pub exit_code : ℕ
  pub end_code : ℕ
  pub brk : ℕ
  pub start_stack : ℕ
  pub pid : ℤ
  pub father : ℤ
  pub pgrp : ℤ
  pub session : ℤ
  pub leader : ℕ
  pub uid : ℕ
  pub euid : ℕ
  pub suid : ℕ
  pub gid : ℕ
  pub egid : ℕ
  pub sgid : ℕ
  pub alarm : ℕ
  pub utime : ℕ
  pub stime : ℕ
  pub cutime : ℕ
  pub cstime : ℕ
  pub tty : ℤ
  pub umask : ℕ

abbrev pub Tasks : Type 0
Tasks = List (Option Task)

-- the place of a pattern in the order of `long`
unfoldable pub height : ℕ → ℕ
height a = (a + 2 ^ 31) % 2 ^ 32

-- `a < b` on `long`, for 32-bit patterns
abbrev pub lt_long : ℕ → ℕ → Bool
lt_long a b = ltb (height a) (height b)

-- x |= 1 << k
abbrev pub or_bit : ℕ → ℕ → ℕ
or_bit x k = if x / 2 ^ k % 2 == 0 then x + 2 ^ k else x

-- the alarm of one task
unfoldable pub check_alarm : ℕ → Task → Task
check_alarm jiffies t =
    if not (t.alarm == 0) && lt_long t.alarm jiffies
    then record t { signal = or_bit t.signal (sigalrm - 1); alarm = 0 }
    else t

-- the first loop's body, for one task
unfoldable pub check_task : ℕ → Task → Task
check_task jiffies t =
    let u = check_alarm jiffies t in
    if not (u.signal == 0) && (u.state == task_interruptible)
    then record u { state = task_running }
    else u

-- A loop from the last task down to task 1, whose body changes the task it stands at.
unfoldable pub each_task : (Task → Task) → Tasks → Tasks
each_task f [] = []
each_task f (none ∷ ts) = none ∷ each_task f ts
each_task f (some t ∷ ts) = some (f t) ∷ each_task f ts

abbrev pub but_first : (Tasks → Tasks) → Tasks → Tasks
but_first f [] = []
but_first f (t ∷ ts) = t ∷ f ts

-- the test of the inner loop: a running task with more on its counter than `c`
unfoldable pub runs_longer : Option Task → ℕ → Bool
runs_longer none c = false
runs_longer (some t) c = (t.state == task_running) && lt_long c t.counter

unfoldable pub counter_of : Option Task → ℕ
counter_of none = 0
counter_of (some t) = t.counter

-- while (--i) …: the indices from `i` down to 1
unfoldable pub choose : Tasks → ℕ → ℕ → ℕ → ℕ × ℕ
choose ts zero c next = (c, next)
choose ts (suc i) c next =
    let t = get_or ts (suc i) none in
    let better = runs_longer t c in
    choose ts i (if better then counter_of t else c) (if better then suc i else next)

-- the shift of a long, which keeps the sign
unfoldable pub half : ℕ → ℕ
half a = (height a / 2 + 3 * 2 ^ 30) % 2 ^ 32

-- (*p)->counter = ((*p)->counter >> 1) + (*p)->priority
unfoldable pub recharge : Task → Task
recharge t = record t { counter = (half t.counter + t.priority) % 2 ^ 32 }

-- while (1) …, with -1 in `c` at first: the table that the loop leaves, and the index it has chosen
unfoldable pub schedule_loop : ℕ → Tasks → Option (Tasks × ℕ)
schedule_loop zero ts = none
schedule_loop (suc fuel) ts =
    let (c, next) = choose ts (nr_tasks - 1) (2 ^ 32 - 1) 0 in
    elim (c % 2 ^ 32 == 0) [
      | true ↦ schedule_loop fuel (but_first (each_task recharge) ts)
      | false ↦ some (ts, next)
    ]

-- the task table and the clock
pub record Kernel : Type 0 where
  pub task : Tasks
  pub current : ℕ
  pub jiffies : ℕ

-- Two rounds of the loop are enough (`Choice`). `switch_to` makes the chosen task the current one.
unfoldable pub schedule : Kernel → Option Kernel
schedule k = elim (schedule_loop 2 (but_first (each_task (check_task k.jiffies)) k.task)) [
  | none ↦ none
  | some (ts, next) ↦ some (record k { task = ts; current = next })
]

-- a change of the task at one index
unfoldable pub update_task : ℕ → (Task → Task) → Tasks → Tasks
update_task i f [] = []
update_task zero f (none ∷ ts) = none ∷ ts
update_task zero f (some t ∷ ts) = some (f t) ∷ ts
update_task (suc i) f (t ∷ ts) = t ∷ update_task i f ts

abbrev pub on_current : (Task → Task) → Kernel → Kernel
on_current f k = record k { task = update_task k.current f k.task }

unfoldable pub sys_pause : Kernel → Option Kernel
sys_pause k = schedule (on_current (λ t. record t { state = task_interruptible }) k)

unfoldable pub tick : ℕ → Task → Task
tick cpl t =
    let timed : Task =
      if cpl == 0 then record t { stime = t.stime + 1 } else record t { utime = t.utime + 1 } in
    record timed { counter = (t.counter + (2 ^ 32 - 1)) % 2 ^ 32 }

-- if ((--current->counter)>0) return; current->counter=0; if (!cpl) return; schedule();
unfoldable pub do_timer : ℕ → Kernel → Option Kernel
do_timer cpl k =
    let ticked = on_current (tick cpl) k in
    let over = on_current (λ t. record t { counter = 0 }) ticked in
    if lt_long 0 (counter_of (get_or ticked.task k.current none))
    then some ticked
    else if cpl == 0
    then some over
    else schedule over

-- `seconds` is a long
unfoldable pub sys_alarm : ℤ → ℕ → Task → Task
sys_alarm (negsuc n) jiffies t = record t { alarm = 0 }
sys_alarm (pos seconds) jiffies t = record t {
  alarm = if ltb 0 seconds then (jiffies + hz * seconds) % 2 ^ 32 else 0;
}

-- if (current->priority-increment>0) current->priority -= increment;
unfoldable pub sys_nice : ℕ → Task → Task
sys_nice increment t =
    let priority = (t.priority + 2 ^ 32 - increment % 2 ^ 32) % 2 ^ 32 in
    if lt_long 0 priority then record t { priority = priority } else t

-- the cases of the switch
abbrev pub can_catch : ℕ → Bool
can_catch s =
    (s == 1)
    || ((s == 2)
        || ((s == 3)
            || ((s == 4)
                || ((s == 5)
                    || ((s == 6)
                        || ((s == 8)
                            || ((s == 10)
                                || ((s == 11)
                                    || ((s == 12)
                                        || ((s == 13) || ((s == 14) || (s == 17))))))))))))

-- The old handler, or nothing for the -1 of a signal that cannot be caught.
unfoldable pub sys_signal : ℕ → ℕ → ℕ → Task → Option ℕ × Task
sys_signal signal addr restorer t =
    if can_catch signal
    then (
      some (get_or t.sig_fn (signal - 1) 0),
      record t { sig_fn = set t.sig_fn (signal - 1) addr; sig_restorer = restorer },
    )
    else (none, t)
