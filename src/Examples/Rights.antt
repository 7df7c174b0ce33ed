-- ===== src/Examples/Rights.antt =====
-- kernel/exit.c and kernel/sys.c: the theorems at a concrete task table.
use linux_0_01raf.Prelude.{
  ℕ, zero, suc, ◌≡◌, ◌≢◌, ap, refl, false, Option, none, some, [], ◌∷◌, arith, get_or,
  if◌then◌else◌,
}
use linux_0_01raf.Prelude.Int.{pos, pos_part}
use linux_0_01raf.Sched.{Task, Tasks, Kernel, schedule}
use linux_0_01raf.Sched.Signals.{exit_tasks, sys_waitpid, yields, eq_ℤ}
use linux_0_01raf.Sched.Signals.Exit.{sys_waitpid-exit_tasks}
use linux_0_01raf.Sched.Ids.{sys_setpgid}
use linux_0_01raf.Sched.Ids.Rights.{
  setuid, setgid, setsid, brk, umask, calls, IsConfined, calls-IsConfined, sys_setuid-root,
}
use linux_0_01raf.Sched.Ids.Groups.{SetsGroup, sys_setpgid-SetsGroup}
use linux_0_01raf.Examples.Tasks.{task_0}

abbrev parent : Task
parent = record task_0 { pid = pos 1; uid = 7; euid = 7; suid = 8 }

abbrev child : Task
child = record parent { pid = pos 2; father = pos 1 }

abbrev family : Tasks
family = some task_0 ∷ some parent ∷ some child ∷ []

abbrev number : Option Task → ℕ
number none = 0
number (some t) = pos_part t.pid

only_child : (j : ℕ) (u : Task) → j ≢ 2 → get_or family j none ≡ some u → u.pid ≢ child.pid
only_child zero u n e q =
    let a : 0 ≡ pos_part u.pid = ap number e in
    let b : pos_part u.pid ≡ 2 = ap pos_part q in omega arith
only_child (suc zero) u n e q =
    let a : 1 ≡ pos_part u.pid = ap number e in
    let b : pos_part u.pid ≡ 2 = ap pos_part q in omega arith
only_child (suc (suc zero)) u n e q = n refl
only_child (suc (suc (suc j))) u n e q = cc

not_zero : pos 1 ≢ pos 0
not_zero = λ e. let n : ◌≡◌ {A = ℕ} 1 0 = ap pos_part e in omega arith

not_self : pos 1 ≢ pos 2
not_self = λ e. let n : ◌≡◌ {A = ℕ} 1 2 = ap pos_part e in omega arith

sys_waitpid-exit_tasks_example :
    (us vs : Tasks) × (exit_tasks 2 256 family ≡ some us)
    × (sys_waitpid (pos 2) false parent 1 us ≡ yields (pos 2) 256 vs)
    × (get_or vs 2 none ≡ none)
    × ((k k' : Kernel) → k.task ≡ vs → schedule k ≡ some k' → get_or k'.task 2 none ≡ none)
sys_waitpid-exit_tasks_example =
    sys_waitpid-exit_tasks 2 256 1 1 false family child parent (omega arith) (omega arith)
      (omega arith) refl refl not_zero not_self only_child refl

parent-IsConfined : IsConfined 7 parent
parent-IsConfined = record {
  real = refl;
  user = omega arith;
  effective = omega arith;
  saved = omega arith;
  short = omega arith;
}

calls-IsConfined_example :
    IsConfined 7 (calls (setuid 0 ∷ setgid 0 ∷ setsid ∷ setuid 7 ∷ umask 18 ∷ brk 9 ∷ []) parent)
calls-IsConfined_example =
    calls-IsConfined 7 (setuid 0 ∷ setgid 0 ∷ setsid ∷ setuid 7 ∷ umask 18 ∷ brk 9 ∷ []) parent
      parent-IsConfined

-- a task whose three users are one
abbrev plain_user : Task
plain_user = record parent { suid = 7 }

sys_setuid-root_example :
    (calls (setuid 0 ∷ []) plain_user ≡ record plain_user { euid = 0 })
    × (calls (setuid 0 ∷ setuid 0 ∷ []) plain_user ≡ record plain_user { euid = 0; uid = 0 })
sys_setuid-root_example = sys_setuid-root plain_user (omega arith) (omega arith) refl

sys_setpgid-SetsGroup_example :
    SetsGroup
      (if eq_ℤ (pos 2) (pos 0) then parent.pid else pos 2)
      (if eq_ℤ (pos 0) (pos 0) then (if eq_ℤ (pos 2) (pos 0) then parent.pid else pos 2) else pos 0)
      parent
      family
      (sys_setpgid (pos 2) (pos 0) parent family)
sys_setpgid-SetsGroup_example = sys_setpgid-SetsGroup (pos 2) (pos 0) parent family
