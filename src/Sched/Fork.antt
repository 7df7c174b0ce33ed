-- ===== src/Sched/Fork.antt =====
-- kernel/fork.c: the choice of a process number and of a slot, and the child in the task table. `last_pid` is a
-- `long` that is not negative. What memory management answers is given: whether there is a page for the
-- task, and whether copy_mem succeeds. The start time, the registers, the descriptors and the inodes of the child are
-- left out.
use linux_0_01raf.Prelude.{
  ℕ, zero, suc, ◌+◌, ◌-◌, ◌^◌, Bool, true, false, ◌&&◌, ◌||◌, Option, none, some, [], ◌∷◌, ◌==◌,
  if◌then◌else◌, get_or, set,
}
use linux_0_01raf.Prelude.Int.{ℤ, pos, negsuc}
use linux_0_01raf.Sched.{Task, Tasks, task_running}
use linux_0_01raf.Sched.Signals.{eq_ℤ}

abbrev pub nr_tasks : ℕ
nr_tasks = 64

-- if ((++last_pid)<0) last_pid=1
unfoldable pub next_pid : ℕ → ℕ
next_pid last_pid = if last_pid + 1 == 2 ^ 31 then 1 else last_pid + 1

-- the test of the loop over the table, on one slot
unfoldable pub has_pid : ℕ → Option Task → Bool
has_pid last_pid none = false
has_pid last_pid (some t) = eq_ℤ t.pid (pos last_pid)

unfoldable pub is_taken : ℕ → Tasks → Bool
is_taken last_pid [] = false
is_taken last_pid (t ∷ ts) = has_pid last_pid t || is_taken last_pid ts

-- repeat: one round more than the table has slots is enough
unfoldable pub find_pid : ℕ → ℕ → Tasks → Option ℕ
find_pid zero last_pid task = none
find_pid (suc rounds) last_pid task =
    let again = find_pid rounds (next_pid last_pid) task in
    if is_taken (next_pid last_pid) task then again else some (next_pid last_pid)

unfoldable pub is_free : Option Task → Bool
is_free none = true
is_free (some t) = false

-- for(i=1 ; i<NR_TASKS ; i++), with `n` slots to go
unfoldable pub free_slot : ℕ → ℕ → Tasks → Option ℕ
free_slot zero i task = none
free_slot (suc n) i task =
    let rest = free_slot n (i + 1) task in if is_free (get_or task i none) then some i else rest

-- last_pid, and the slot, where there is one
unfoldable pub find_empty_process : ℕ → Tasks → Option (ℕ × Option ℕ)
find_empty_process last_pid task = elim (find_pid (nr_tasks + 1) last_pid task) [
  | none ↦ none
  | some pid ↦ some (pid, free_slot (nr_tasks - 1) 1 task)
]

unfoldable pub child : ℕ → Task → Task
child last_pid current = record current {
  state = task_running;
  pid = pos last_pid;
  father = current.pid;
  counter = current.priority;
  signal = 0;
  alarm = 0;
  leader = 0;
  utime = 0;
  stime = 0;
  cutime = 0;
  cstime = 0;
}

pub record Forked : Type 0 where
  pub answer : ℤ
  pub last_pid : ℕ
  pub task : Tasks

-- -EAGAIN
abbrev pub eagain : ℤ
eagain = negsuc 10

unfoldable pub copy_process : Bool → Bool → ℕ → ℕ → Task → Tasks → Forked
copy_process has_page copies nr last_pid current task =
    if has_page && copies
    then record {
      answer = pos last_pid;
      last_pid = last_pid;
      task = set task nr (some (child last_pid current));
    }
    else record { answer = eagain; last_pid = last_pid; task = task }

-- sys_fork, of kernel/system_call.s: an answer below 0 of the first call is the answer
unfoldable pub sys_fork : Bool → Bool → ℕ → Task → Tasks → Option Forked
sys_fork has_page copies last_pid current task = elim (find_empty_process last_pid task) [
  | none ↦ none
  | some (pid, none) ↦ some (record { answer = eagain; last_pid = pid; task = task })
  | some (pid, some nr) ↦ some (copy_process has_page copies nr pid current task)
]
