-- ===== src/Examples/Tasks.antt =====
-- kernel/sched.c: the theorems at a concrete task table.
use linux_0_01raf.Prelude.{
  ◌∙◌, sym, true, ℕ, ap, zero, suc, ◌≡◌, ◌≢◌, refl, true, Option, none, some, [], ◌∷◌, arith,
  replicate,
}
use linux_0_01raf.Prelude.Int.{pos, negsuc}
use linux_0_01raf.Sched.{height, lt_long, Task, Kernel, schedule, task_running}
use linux_0_01raf.Sched.Choice.{Chosen, HasPriority, schedule-Chosen}
use linux_0_01raf.Sched.Calls.{timer, pause, alarm, nice, signal, run, Goes, run-Goes}
use linux_0_01raf.Sched.Fork.{Forked, sys_fork}
use linux_0_01raf.Sched.Pids.{IsFork, sys_fork-IsFork}
use linux_0_01raf.Sched.Sleep.{
  Wait, Reach, here, next, sleeps, IsIdle, CanGoOn, sleep_begin, no_lost_wakeup,
}

abbrev pub task_0 : Task
task_0 = record {
  state = 0;
  counter = 15;
  priority = 15;
  signal = 0;
  sig_restorer = 0;
  sig_fn = replicate 32 0;
  exit_code = 0;
  end_code = 0;
  brk = 0;
  start_stack = 0;
  pid = pos 0;
  father = negsuc 0;
  pgrp = pos 0;
  session = pos 0;
  leader = 0;
  uid = 0;
  euid = 0;
  suid = 0;
  gid = 0;
  egid = 0;
  sgid = 0;
  alarm = 0;
  utime = 0;
  stime = 0;
  cutime = 0;
  cstime = 0;
  tty = negsuc 0;
  umask = 91;
}

-- task 0, and two others of which the second has used up its time
abbrev kernel : Kernel
kernel = record {
  task =
      some task_0
      ∷ some (record task_0 { pid = pos 1; counter = 3 })
      ∷ some (record task_0 { pid = pos 2; counter = 0 })
      ∷ [];
  current = 2;
  jiffies = 0;
}

abbrev priority_of : Option Task → ℕ
priority_of none = 0
priority_of (some t) = t.priority

fifteen : lt_long 0 15 ≡ true
unfolding height
fifteen = refl

kernel-HasPriority : HasPriority kernel.task
kernel-HasPriority zero t h e = absurd (omega arith)
kernel-HasPriority (suc zero) t h e = ap (lt_long 0) (sym (ap priority_of e)) ∙ fifteen
kernel-HasPriority (suc (suc zero)) t h e = ap (lt_long 0) (sym (ap priority_of e)) ∙ fifteen
kernel-HasPriority (suc (suc (suc j))) t h e = cc

schedule-Chosen_example :
    (k' : Kernel) × (schedule kernel ≡ some k')
    × Chosen k'.task k'.current
    × HasPriority k'.task
    × (k'.jiffies ≡ 0)
schedule-Chosen_example = schedule-Chosen kernel kernel-HasPriority

run-Goes_example : Goes (run (timer 3 ∷ nice 5 ∷ alarm (pos 1) ∷ signal 14 7 8 ∷ pause ∷ []) kernel)
run-Goes_example =
    run-Goes (timer 3 ∷ nice 5 ∷ alarm (pos 1) ∷ signal 14 7 8 ∷ pause ∷ []) kernel
      kernel-HasPriority

abbrev idle : Wait
idle = record { queue = none; state = λ t. 0; frame = λ t. none }

-- tasks 3 and 4 sleep on the queue
abbrev two_asleep : Wait
two_asleep = sleep_begin 4 (sleep_begin 3 idle)

idle-IsIdle : IsIdle idle
idle-IsIdle = record { empty = refl; no_frame = λ t. refl; awake = λ t. refl }

idle-Reach : Reach idle two_asleep
unfolding sleep_begin
idle-Reach = next (next here (sleeps 3 idle refl)) (sleeps 4 (sleep_begin 3 idle) refl)

asleep : two_asleep.state 3 ≢ task_running
unfolding sleep_begin
asleep = λ e. omega arith

no_lost_wakeup_example : CanGoOn two_asleep
no_lost_wakeup_example = no_lost_wakeup idle two_asleep 3 idle-IsIdle idle-Reach asleep

-- task 0 forks in a table with one more task, which has the number 1
sys_fork-IsFork_example :
    (r : Forked) × (sys_fork true true 0 task_0
        (some task_0 ∷ some (record task_0 { pid = pos 1 }) ∷ replicate 62 none)
      ≡ some r)
    × IsFork true task_0 (some task_0 ∷ some (record task_0 { pid = pos 1 }) ∷ replicate 62 none) r
sys_fork-IsFork_example =
    sys_fork-IsFork true true 0 task_0
      (some task_0 ∷ some (record task_0 { pid = pos 1 }) ∷ replicate 62 none) refl (omega arith)
