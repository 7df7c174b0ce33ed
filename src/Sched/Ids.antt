-- ===== src/Sched/Ids.antt =====
-- kernel/sys.c: the calls on a task's user, group, session and break, and find_empty_process of
-- kernel/fork.c. An `int` argument that is compared with an unsigned short is its 32-bit pattern.
pub mod Rights
pub mod Groups
use linux_0_01raf.Prelude.{
  ℕ, zero, suc, ◌+◌, ◌-◌, ◌/◌, ◌%◌, ◌^◌, Bool, true, false, not, ◌&&◌, ◌||◌, Option, none, some,
  List, [], ◌∷◌, ltb, leb, ◌==◌, if◌then◌else◌, get_or, set,
}
use linux_0_01raf.Prelude.Int.{ℤ, pos, negsuc}
use linux_0_01raf.Sched.{Task, Tasks, Kernel, nr_tasks, hz}
use linux_0_01raf.Sched.Signals.{eq_ℤ}

-- include/errno.h, negated
abbrev pub eperm : ℤ
eperm = negsuc 0

abbrev pub esrch : ℤ
esrch = negsuc 2

-- current->euid && current->uid
unfoldable pub is_user : Task → Bool
is_user t = not (t.euid == 0) && not (t.uid == 0)

unfoldable pub sys_setgid : ℕ → Task → ℤ × Task
sys_setgid gid t =
    if is_user t
    then if (t.gid == gid) || (t.sgid == gid)
      then (pos 0, record t { egid = gid % 65536 })
      else (eperm, t)
    else (pos 0, record t { gid = gid % 65536; egid = gid % 65536 })

-- The test is the code's: `uid==current->uid || current->suid==current->uid`.
unfoldable pub sys_setuid : ℕ → Task → ℤ × Task
sys_setuid uid t =
    if is_user t
    then if (uid == t.uid) || (t.suid == t.uid)
      then (pos 0, record t { euid = uid % 65536 })
      else (eperm, t)
    else (pos 0, record t { uid = uid % 65536; euid = uid % 65536 })

unfoldable pub sys_setsid : Task → ℤ × Task
sys_setsid t =
    if not (t.uid == 0) && not (t.euid == 0)
    then (eperm, t)
    else if not (t.leader == 0)
    then (eperm, t)
    else (t.pid, record t { leader = 1; session = t.pid; pgrp = t.pid; tty = negsuc 0 })

-- `start_stack - 16384` is unsigned
unfoldable pub sys_brk : ℕ → Task → ℕ × Task
sys_brk end_data_seg t =
    if leb t.end_code end_data_seg && ltb end_data_seg ((t.start_stack + 2 ^ 32 - 16384) % 2 ^ 32)
    then (end_data_seg, record t { brk = end_data_seg })
    else (t.brk, t)

unfoldable pub sys_umask : ℕ → Task → ℕ × Task
sys_umask mask t = (t.umask, record t { umask = mask % 512 })

-- `startup_time`, a long
unfoldable pub sys_stime : ℕ → ℕ → Task → ℕ → Option ℕ
sys_stime value jiffies t startup_time =
    if is_user t then none else some ((value + 2 ^ 32 - jiffies / hz) % 2 ^ 32)

-- what `sys_setpgid` does with the first task of the number `pid`
unfoldable pub set_group : ℤ → Task → Task → ℤ × Task
set_group pgid current t =
    if not (t.leader == 0)
    then (eperm, t)
    else if not (eq_ℤ t.session current.session)
    then (eperm, t)
    else (pos 0, record t { pgrp = pgid })

-- the loop of `sys_setpgid`
unfoldable pub set_group_of : ℤ → ℤ → Task → Tasks → ℤ × Tasks
set_group_of pid pgid current [] = (esrch, [])
set_group_of pid pgid current (none ∷ ts) =
    let (answer, us) = set_group_of pid pgid current ts in (answer, none ∷ us)
set_group_of pid pgid current (some t ∷ ts) =
    let (answer, us) = set_group_of pid pgid current ts in
    let (answer', t') = set_group pgid current t in
    if eq_ℤ t.pid pid then (answer', some t' ∷ ts) else (answer, some t ∷ us)

-- `pid` 0 is the current task, `pgid` 0 is `pid`
unfoldable pub sys_setpgid : ℤ → ℤ → Task → Tasks → ℤ × Tasks
sys_setpgid pid pgid current ts =
    let pid' = if eq_ℤ pid (pos 0) then current.pid else pid in
    let pgid' = if eq_ℤ pgid (pos 0) then pid' else pgid in set_group_of pid' pgid' current ts
