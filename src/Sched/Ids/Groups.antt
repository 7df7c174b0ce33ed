-- ===== src/Sched/Ids/Groups.antt =====
-- kernel/sys.c: what `setpgid` changes.
use linux_0_01raf.Prelude.{
  ℕ, zero, suc, ◌≡◌, ◌≢◌, ap, refl, ◌⊎◌, inl, inr, true, Option, none, some, [], ◌∷◌, arith, ◌==◌,
  if◌then◌else◌, Bool-cases, get_or,
}
use linux_0_01raf.Prelude.Int.{ℤ, pos, negsuc}
use linux_0_01raf.Sched.{Task, Tasks}
use linux_0_01raf.Sched.Signals.{eq_ℤ}
use linux_0_01raf.Sched.Ids.{set_group, set_group_of, sys_setpgid, eperm}

-- a table with one task's group changed
pub record Regrouped (pid pgid : ℤ) (current : Task) (ts us : Tasks) : Type 0 where
  pub index : ℕ
  pub task : Task
  pub was : get_or ts index none ≡ some task
  pub number : eq_ℤ task.pid pid ≡ true
  pub no_leader : task.leader ≡ 0
  pub same_session : eq_ℤ task.session current.session ≡ true
  pub now : get_or us index none ≡ some (record task { pgrp = pgid })
  pub others : (j : ℕ) → j ≢ index → get_or us j none ≡ get_or ts j none

set_group-cases :
    (pgid : ℤ) (current t : Task)
    → (set_group pgid current t ≡ (eperm, t))
      ⊎ ((set_group pgid current t ≡ (pos 0, record t { pgrp = pgid }))
          × (t.leader ≡ 0)
          × (eq_ℤ t.session current.session ≡ true))
unfolding set_group
set_group-cases pgid current t = elim (Bool-cases (t.leader == 0)) [
  | inr e ↦ inl (rw (set_group, e) refl)
  | inl e ↦ elim (Bool-cases (eq_ℤ t.session current.session)) [
    | inr f ↦ inl (rw (set_group, e) (rw f refl))
    | inl f ↦ inr (rw (set_group, e) (rw f refl), ground arith, f)
  ]
]

behind :
    (pid pgid : ℤ) (current : Task) (o : Option Task) {ts us : Tasks}
    → Regrouped pid pgid current ts us
    → Regrouped pid pgid current (o ∷ ts) (o ∷ us)
behind pid pgid current o {ts} {us} r = record {
  index = suc r.index;
  task = r.task;
  was = r.was;
  number = r.number;
  no_leader = r.no_leader;
  same_session = r.same_session;
  now = r.now;
  others = λ j n. at j n;
}
  where
    at : (j : ℕ) → j ≢ suc r.index → get_or (o ∷ us) j none ≡ get_or (o ∷ ts) j none
    at zero n = refl
    at (suc j) n = r.others j (λ e. n (ap suc e))

-- a call that fails and changes nothing, or moves one task to the group
abbrev pub SetsGroup : ℤ → ℤ → Task → Tasks → ℤ × Tasks → Type 0
SetsGroup pid pgid current ts r =
    ((r.0 ≢ pos 0) × (r.1 ≡ ts)) ⊎ ((r.0 ≡ pos 0) × Regrouped pid pgid current ts r.1)

failed : (n : ℕ) → negsuc n ≢ pos 0
failed n = λ e. cc

set_group-SetsGroup :
    (pid pgid : ℤ) (current t : Task) (ts : Tasks)
    → eq_ℤ t.pid pid ≡ true
    → SetsGroup pid pgid current
        (some t ∷ ts)
        ((set_group pgid current t).0, some (set_group pgid current t).1 ∷ ts)
set_group-SetsGroup pid pgid current t ts found = elim (set_group-cases pgid current t) [
  | inl e ↦ rw e (inl (failed 0, refl))
  | inr (e, l, q) ↦ rw e (
      inr (
        refl,
        record {
          index = 0;
          task = t;
          was = refl;
          number = found;
          no_leader = l;
          same_session = q;
          now = refl;
          others = other;
        },
      ))
]
  where
    other :
        (j : ℕ)
        → j ≢ 0
        → get_or (some (record t { pgrp = pgid }) ∷ ts) j none ≡ get_or (some t ∷ ts) j none
    other zero n = absurd (n refl)
    other (suc j) n = refl

set_group_of-SetsGroup :
    (pid pgid : ℤ) (current : Task) (ts : Tasks)
    → SetsGroup pid pgid current ts (set_group_of pid pgid current ts)
unfolding set_group_of
set_group_of-SetsGroup pid pgid current [] = inl (failed 2, refl)
set_group_of-SetsGroup pid pgid current (none ∷ ts) =
    elim (set_group_of-SetsGroup pid pgid current ts) [
      | inl (n, e) ↦ inl (n, ap (◌∷◌ none) e)
      | inr (z, r) ↦ inr (z, behind pid pgid current none r)
    ]
set_group_of-SetsGroup pid pgid current (some t ∷ ts) = elim (Bool-cases (eq_ℤ t.pid pid)) [
  | inr other ↦
      rw (set_group_of, other)
        (elim (set_group_of-SetsGroup pid pgid current ts) [
          | inl (n, e) ↦ inl (n, ap (◌∷◌ (some t)) e)
          | inr (z, r) ↦ inr (z, behind pid pgid current (some t) r)
        ])
  | inl found ↦ rw (set_group_of, found) (set_group-SetsGroup pid pgid current t ts found)
]

-- `setpgid` either fails and changes nothing, or it answers 0, and then it has moved one task to the
-- group: a task of the number, of the caller's session, that leads no session. The number 0 is the
-- caller's own, the group 0 the task's number.
pub sys_setpgid-SetsGroup :
    (pid pgid : ℤ) (current : Task) (ts : Tasks)
    → SetsGroup
        (if eq_ℤ pid (pos 0) then current.pid else pid)
        (if eq_ℤ pgid (pos 0) then (if eq_ℤ pid (pos 0) then current.pid else pid) else pgid)
        current
        ts
        (sys_setpgid pid pgid current ts)
unfolding sys_setpgid
sys_setpgid-SetsGroup pid pgid current ts =
    set_group_of-SetsGroup (if eq_ℤ pid (pos 0) then current.pid else pid)
      (if eq_ℤ pgid (pos 0) then (if eq_ℤ pid (pos 0) then current.pid else pid) else pgid) current
      ts
