-- ===== src/Sched/Signals/Exit.antt =====
-- kernel/exit.c: the end of a task is found by its parent's `waitpid`.
use linux_0_01raf.Prelude.{
  ℕ, zero, suc, ◌-◌, ◌≤◌, ◌<◌, ◌≡◌, ◌≢◌, ◌∙◌, ap, sym, refl, inl, inr, Bool, true, false, Option,
  none, some, [], ◌∷◌, arith, ◌==◌, if◌then◌else◌, Bool-cases, Option-cases, get_or, set,
}
use linux_0_01raf.Prelude.Int.{ℤ, pos}
use mathlib.Core.Option
use linux_0_01raf.Sched.{Kernel, schedule, Task, Tasks, nr_tasks, sigchld, each_task, update_task}
use linux_0_01raf.Sched.Choice.{get_or-each_task, get_or-but_first, schedule-free}
use linux_0_01raf.Sched.Calls.{get_or-update_task}
use linux_0_01raf.Sched.Signals.{
  eq_ℤ, kill_one, do_kill, release, orphan, become_zombie, notify_father, exit_tasks, is_waited,
  yields, add_times, reap, sys_waitpid,
}
use linux_0_01raf.Sched.Signals.Search.{eq_ℤ_refl, eq_of_eq_ℤ, kill_one_keeps, find_child-zombie}

-- what `exit` makes of the task at index `j`, if `t` is the one that ends, at index `c`
unfoldable left_by : ℕ → ℕ → Task → ℕ → Task → Task
left_by c code t j p =
    kill_one t.father (pos sigchld) true t
      (if j == c then become_zombie code (orphan t p) else orphan t p)

left_by_lem :
    (c code : ℕ) (t : Task) (j : ℕ) (o : Option Task)
    → Option.map (kill_one t.father (pos sigchld) true t) (
        if j == c
        then Option.map (become_zombie code) (Option.map (orphan t) o)
        else Option.map (orphan t) o)
      ≡ Option.map (left_by c code t j) o
unfolding left_by
left_by_lem c code t j o = elim (Bool-cases (j == c)) [
  | inl e ↦ rw e (at_c o e)
  | inr e ↦ rw e (elsewhere o e)
]
  where
    at_c :
        (o : Option Task)
        → j == c ≡ true
        → Option.map
            (kill_one t.father (pos sigchld) true t)
            (Option.map (become_zombie code) (Option.map (orphan t) o))
          ≡ Option.map (left_by c code t j) o
    at_c none e = refl
    at_c (some p) e = rw e refl

    elsewhere :
        (o : Option Task)
        → j == c ≡ false
        → Option.map (kill_one t.father (pos sigchld) true t) (Option.map (orphan t) o)
          ≡ Option.map (left_by c code t j) o
    elsewhere none e = refl
    elsewhere (some p) e = rw e refl

orphan_self : (t : Task) → eq_ℤ t.father t.pid ≡ false → orphan t t ≡ t
unfolding orphan
orphan_self t e = rw (orphan, e) refl

-- the table that `exit` leaves
exit_tasks_lem :
    (c code : ℕ) (ts : Tasks) (t : Task)
    → get_or ts c none ≡ some t
    → eq_ℤ t.father t.pid ≡ false
    → eq_ℤ t.father (pos 0) ≡ false
    → (us : Tasks) × (exit_tasks c code ts ≡ some us)
      × ((j : ℕ) → 1 ≤ j → get_or us j none ≡ Option.map (left_by c code t j) (get_or ts j none))
unfolding exit_tasks notify_father do_kill left_by
exit_tasks_lem c code ts t e own orphaned = (
  us,
  rw (exit_tasks, e) (rw (notify_father, there) (rw orphaned refl)),
  λ j h.
      get_or-but_first (kill_one t.father (pos sigchld) true t)
        (update_task c (become_zombie code) (each_task (orphan t) ts)) j h
      ∙ ap (Option.map (kill_one t.father (pos sigchld) true t))
          (get_or-update_task c j (become_zombie code) (each_task (orphan t) ts))
      ∙ ap
          (λ o.
            Option.map (kill_one t.father (pos sigchld) true t)
              (if j == c then Option.map (become_zombie code) o else o))
          (get_or-each_task (orphan t) ts j)
      ∙ left_by_lem c code t j (get_or ts j none),
)
  where
    us : Tasks
    us =
        do_kill t.father (pos sigchld) true t
          (update_task c (become_zombie code) (each_task (orphan t) ts))

    there : get_or (each_task (orphan t) ts) c none ≡ some t
    there =
        get_or-each_task (orphan t) ts c
        ∙ ap (Option.map (orphan t)) e
        ∙ ap some (orphan_self t own)

kept_pid : (c code : ℕ) (t : Task) (j : ℕ) (p : Task) → (left_by c code t j p).pid ≡ p.pid
unfolding left_by orphan become_zombie
kept_pid c code t j p = elim (Bool-cases (j == c)) [
  | inl e ↦
      rw (left_by, e)
        (ap (λ (u : Task). u.pid)
            (kill_one_keeps t.father (pos sigchld) true t (become_zombie code (orphan t p)))
          ∙ orphan_pid)
  | inr e ↦
      rw (left_by, e)
        (ap (λ (u : Task). u.pid) (kill_one_keeps t.father (pos sigchld) true t (orphan t p))
          ∙ orphan_pid)
]
  where
    orphan_pid : (orphan t p).pid ≡ p.pid
    orphan_pid = elim (Bool-cases (eq_ℤ p.father t.pid)) [
      | inl e ↦ rw (orphan, e) refl
      | inr e ↦ rw (orphan, e) refl
    ]

-- the entry of the task that ended
left_by_self :
    (c code : ℕ) (t : Task)
    → eq_ℤ t.father t.pid ≡ false
    → (x : ℕ) × (left_by c code t c t ≡ record (become_zombie code t) { signal = x })
unfolding left_by
left_by_self c code t own =
    let same : c == c ≡ true = ground arith in
    (
      (kill_one t.father (pos sigchld) true t (become_zombie code t)).signal,
      rw (left_by, same)
          (rw (orphan_self t own)
            (kill_one_keeps t.father (pos sigchld) true t (become_zombie code t))),
    )

get_or-set-none : (ts : Tasks) (i : ℕ) → get_or (set ts i none) i none ≡ none
get_or-set-none [] i = refl
get_or-set-none (t ∷ ts) zero = refl
get_or-set-none (t ∷ ts) (suc i) = get_or-set-none ts i

-- for one process number, `waitpid` waits for no task with another
is_waited_other :
    (n : ℕ) (current u : Task) → u.pid ≢ pos (suc n) → is_waited (pos (suc n)) current u ≡ false
unfolding is_waited
is_waited_other n current u ne = elim (Bool-cases (eq_ℤ u.pid (pos (suc n)))) [
  | inl e ↦ absurd (ne (eq_of_eq_ℤ u.pid (pos (suc n)) e))
  | inr e ↦ rw (is_waited, e) refl
]

is_waited_self :
    (n : ℕ) (current u : Task)
    → u.pid ≡ pos (suc n)
    → u.father ≡ current.pid
    → is_waited (pos (suc n)) current u ≡ true
unfolding is_waited
is_waited_self n current u p f =
    rw (p, f) (rw (eq_ℤ_refl (pos (suc n)), eq_ℤ_refl current.pid) refl)

false_of_ne : (a b : ℤ) → a ≢ b → eq_ℤ a b ≡ false
false_of_ne a b ne = elim (Bool-cases (eq_ℤ a b)) [
  | inl e ↦ absurd (ne (eq_of_eq_ℤ a b e))
  | inr e ↦ e
]

-- A task that ends is found by the parent that waits for it. Let task `t` at index `c` end with a code,
-- its process number being positive and no other task's, and its parent neither task 0 nor itself. Then
-- `exit` leaves a table in which `waitpid` for the number, called by a task at another index whose
-- number is the father's, neither pauses nor fails: it frees the entry `c` and calls `schedule`, which
-- leaves that entry free whatever it chooses; and once the caller is chosen again, it answers the number and
-- has the exit code.
pub sys_waitpid-exit_tasks :
    (c code n self : ℕ) (nohang : Bool) (ts : Tasks) (t current : Task)
    → 1 ≤ c
    → c < nr_tasks
    → self ≢ c
    → get_or ts c none ≡ some t
    → t.pid ≡ pos (suc n)
    → t.father ≢ pos 0
    → t.father ≢ t.pid
    → ((j : ℕ) (u : Task) → j ≢ c → get_or ts j none ≡ some u → u.pid ≢ t.pid)
    → current.pid ≡ t.father
    → (us vs : Tasks) × (exit_tasks c code ts ≡ some us)
      × (sys_waitpid t.pid nohang current self us ≡ yields t.pid code vs)
      × (get_or vs c none ≡ none)
      × ((k k' : Kernel) → k.task ≡ vs → schedule k ≡ some k' → get_or k'.task c none ≡ none)
unfolding sys_waitpid reap release become_zombie
sys_waitpid-exit_tasks zero code n self nohang ts t current a b ne e pid orphaned own unique
      father =
    absurd (omega arith)
sys_waitpid-exit_tasks (suc i) code n self nohang ts t current a b ne e pid orphaned own unique
      father =
    let (us, q, entries) =
      exit_tasks_lem (suc i) code ts t e (false_of_ne t.father t.pid own)
        (false_of_ne t.father (pos 0) orphaned) in
    let (x, ended) = left_by_self (suc i) code t (false_of_ne t.father t.pid own) in
    let z : Task = record (become_zombie code t) { signal = x } in
    let there : get_or us (suc i) none ≡ some z =
      entries (suc i) a ∙ ap (Option.map (left_by (suc i) code t (suc i))) e ∙ ap some ended in
    let waited : is_waited t.pid current z ≡ true =
      ap (λ k. is_waited k current z) pid ∙ is_waited_self n current z pid (sym father) in
    let found =
      find_child-zombie t.pid current self (suc i) us z (nr_tasks - 1) false (others us entries)
        there waited refl (λ r. ne (sym r)) a (omega arith) in
    (
      us,
      set (update_task self (add_times z) us) (suc i) none,
      q,
      rw (sys_waitpid, found) refl,
      get_or-set-none (update_task self (add_times z) us) (suc i),
      λ k k' own_table chosen.
          schedule-free k k' (suc i) a
            (ap (λ w. get_or w (suc i) none) own_table
              ∙ get_or-set-none (update_task self (add_times z) us) (suc i))
            chosen,
    )
  where
    others :
        (us : Tasks)
        → ((j : ℕ)
            → 1 ≤ j
            → get_or us j none ≡ Option.map (left_by (suc i) code t j) (get_or ts j none))
        → (j : ℕ) (u : Task) → 1 ≤ j
        → j ≢ suc i
        → get_or us j none ≡ some u
        → is_waited t.pid current u ≡ false
    others us entries j u h o there = elim (Option-cases (get_or ts j none)) [
      | inl r ↦
          let gone : get_or us j none ≡ none =
            entries j h ∙ ap (Option.map (left_by (suc i) code t j)) r in
          cc
      | inr (v, r) ↦
          let same : some (left_by (suc i) code t j v) ≡ some u =
            sym (ap (Option.map (left_by (suc i) code t j)) r) ∙ sym (entries j h) ∙ there in
          let same' : left_by (suc i) code t j v ≡ u = cc in
          let pids : u.pid ≡ v.pid =
            ap (λ (w : Task). w.pid) (sym same') ∙ kept_pid (suc i) code t j v in
          ap (λ k. is_waited k current u) pid
          ∙ is_waited_other n current u (λ k. unique j v o r (sym pids ∙ k ∙ sym pid))
    ]
