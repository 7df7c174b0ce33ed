-- ===== src/Sched/Signals.antt =====
-- kernel/exit.c: signals between tasks, the end of a task, and the wait for it.
pub mod Search
pub mod Exit
use linux_0_01raf.Prelude.{
  ℕ, zero, suc, ◌+◌, ◌-◌, Bool, true, false, not, ◌&&◌, ◌||◌, Option, none, some, List, [], ◌∷◌,
  ltb, leb, ◌==◌, if◌then◌else◌, get_or, set,
}
use linux_0_01raf.Prelude.Int.{ℤ, pos, negsuc}
use linux_0_01raf.Sched.{
  Task, Tasks, Kernel, nr_tasks, task_zombie, sigchld, or_bit, each_task, but_first, update_task,
  on_current, schedule, sys_pause,
}

unfoldable pub eq_ℤ : ℤ → ℤ → Bool
eq_ℤ (pos m) (pos n) = m == n
eq_ℤ (negsuc m) (negsuc n) = m == n
eq_ℤ _ _ = false

-- the test of `send_sig`: `current` may signal `p`
unfoldable pub may_signal : Bool → Task → Task → Bool
may_signal priv current p =
    priv
    || ((current.uid == p.uid)
        || ((current.euid == p.uid) || ((current.uid == p.euid) || (current.euid == p.euid))))

unfoldable pub send_sig : ℤ → Bool → Task → Task → Task
send_sig (negsuc n) priv current p = p
send_sig (pos sig) priv current p =
    if ltb sig 1 || ltb 32 sig
    then p
    else if may_signal priv current p
    then record p { signal = or_bit p.signal (sig - 1) }
    else p

-- the four cases of `do_kill`; `negsuc (suc n)` is -(n + 2)
unfoldable pub is_target : ℤ → Task → Task → Bool
is_target (pos zero) current p = eq_ℤ p.pgrp current.pid
is_target (pos (suc n)) current p = eq_ℤ p.pid (pos (suc n))
is_target (negsuc zero) current p = true
is_target (negsuc (suc n)) current p = eq_ℤ p.pgrp (pos (suc (suc n)))

unfoldable pub kill_one : ℤ → ℤ → Bool → Task → Task → Task
kill_one pid sig priv current p = if is_target pid current p then send_sig sig priv current p else p

unfoldable pub do_kill : ℤ → ℤ → Bool → Task → Tasks → Tasks
do_kill pid sig priv current ts = but_first (each_task (kill_one pid sig priv current)) ts

-- priv is !(current->uid || current->euid)
unfoldable pub sys_kill : ℤ → ℤ → Task → Tasks → Tasks
sys_kill pid sig current ts = do_kill pid sig ((current.uid == 0) && (current.euid == 0)) current ts

-- `release` panics for task 0, and else calls `schedule` with the table that is given here: other tasks run
-- before it returns. The task's page goes back to the page map.
unfoldable pub release : ℕ → Tasks → Option Tasks
release zero ts = none
release (suc i) ts = some (set ts (suc i) none)

-- if (task[i] && task[i]->father == current->pid) task[i]->father = 0;
unfoldable pub orphan : Task → Task → Task
orphan current p = if eq_ℤ p.father current.pid then record p { father = pos 0 } else p

unfoldable pub become_zombie : ℕ → Task → Task
become_zombie code t = record t { state = task_zombie; exit_code = code }

-- The end of `do_exit` for the task at index `i`, up to its call of `schedule`: the table it leaves.
-- `do_kill` reads no field that the two assignments around it change.
unfoldable pub notify_father : ℕ → ℕ → Tasks → Option Tasks
notify_father i code ts = elim (get_or ts i none) [
  | none ↦ some ts
  | some t ↦
      if eq_ℤ t.father (pos 0)
      then release i ts
      else some (do_kill t.father (pos sigchld) true t (update_task i (become_zombie code) ts))
]

-- `do_exit` on the task table
unfoldable pub exit_tasks : ℕ → ℕ → Tasks → Option Tasks
exit_tasks i code ts = elim (get_or ts i none) [
  | none ↦ some ts
  | some t ↦ notify_father i code (each_task (orphan t) ts)
]

-- the children that `waitpid` waits for
unfoldable pub is_waited : ℤ → Task → Task → Bool
is_waited (pos zero) current p =
    (eq_ℤ p.pid (pos zero) || eq_ℤ p.pgrp current.pgrp) && eq_ℤ p.father current.pid
is_waited (pos (suc n)) current p = eq_ℤ p.pid (pos (suc n)) && eq_ℤ p.father current.pid
is_waited (negsuc zero) current p = eq_ℤ p.father current.pid
is_waited (negsuc (suc n)) current p =
    (eq_ℤ p.pid (negsuc (suc n)) || eq_ℤ p.pgrp (pos (suc (suc n)))) && eq_ℤ p.father current.pid

-- What the loop of `sys_waitpid` finds: a zombie at an index, a child that still lives, or no child.
pub data Found : Type 0 where
  zombie : ℕ → Task → Found
  alive : Found
  childless : Found

-- one task of the loop, at index `i`; `rest` is what the loop finds behind it
unfoldable pub look_at : ℤ → Task → ℕ → Option Task → Bool → (Bool → Found) → Found
look_at pid current i none flag rest = rest flag
look_at pid current i (some p) flag rest =
    if is_waited pid current p
    then if p.state == task_zombie then zombie i p else rest true
    else rest flag

-- the indices from `n` down to 1, without the current task's own, `self`
unfoldable pub find_child : ℤ → Task → ℕ → Tasks → ℕ → Bool → Found
find_child pid current self ts zero flag = if flag then alive else childless
find_child pid current self ts (suc n) flag =
    let rest = find_child pid current self ts n in
    if suc n == self
    then rest flag
    else look_at pid current (suc n) (get_or ts (suc n) none) flag rest

-- What a call of `sys_waitpid` does until it returns, pauses or yields. `yields pid code ts` is the call of
-- `schedule` in `release`, on the table `ts`: once the task is chosen again, the call answers `pid`, and `code`
-- is in the caller's memory.
pub data Waited : Type 0 where
  yields : ℤ → ℕ → Tasks → Waited
  nothing : Waited
  pauses : Waited
  echild : Waited
  panic : Waited

-- the times of the child go to the parent
unfoldable pub add_times : Task → Task → Task
add_times p t = record t { cutime = t.cutime + p.utime; cstime = t.cstime + p.stime }

unfoldable pub reap : ℕ → Task → ℕ → Tasks → Waited
reap self p i ts = elim (release i (update_task self (add_times p) ts)) [
  | none ↦ panic
  | some us ↦ yields p.pid p.exit_code us
]

-- `nohang` is options & WNOHANG
unfoldable pub sys_waitpid : ℤ → Bool → Task → ℕ → Tasks → Waited
sys_waitpid pid nohang current self ts =
    elim (find_child pid current self ts (nr_tasks - 1) false) [
      | zombie i p ↦ reap self p i ts
      | alive ↦ if nohang then nothing else pauses
      | childless ↦ echild
    ]
