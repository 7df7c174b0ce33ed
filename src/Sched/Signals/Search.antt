-- ===== src/Sched/Signals/Search.antt =====
-- kernel/exit.c: what a signal leaves as it is, and what the loop of `sys_waitpid` finds.
use linux_0_01raf.Prelude.{
  ℕ, zero, suc, ◌≤◌, ◌≡◌, ◌≢◌, ◌∙◌, ap, refl, inl, inr, Bool, true, false, ◌||◌, none, some, arith,
  ltb, ◌==◌, Bool-cases, Option-cases, get_or,
}
use linux_0_01raf.Prelude.Int.{ℤ, pos, negsuc}
use linux_0_01raf.Sched.{Task, Tasks, task_zombie}
use linux_0_01raf.Sched.Signals.{
  eq_ℤ, may_signal, send_sig, is_target, kill_one, is_waited, zombie, look_at, find_child,
}

pub eq_ℤ_refl : (a : ℤ) → eq_ℤ a a ≡ true
unfolding eq_ℤ
eq_ℤ_refl (pos n) = ground arith
eq_ℤ_refl (negsuc n) = ground arith

pub eq_of_eq_ℤ : (a b : ℤ) → eq_ℤ a b ≡ true → a ≡ b
unfolding eq_ℤ
eq_of_eq_ℤ (pos m) (pos n) h = ap pos (ground arith)
eq_of_eq_ℤ (negsuc m) (negsuc n) h = ap negsuc (ground arith)
eq_of_eq_ℤ (pos m) (negsuc n) h = cc
eq_of_eq_ℤ (negsuc m) (pos n) h = cc

send_sig_keeps :
    (sig : ℤ) (priv : Bool) (current p : Task)
    → send_sig sig priv current p ≡ record p { signal = (send_sig sig priv current p).signal }
unfolding send_sig
send_sig_keeps (negsuc n) priv current p = refl
send_sig_keeps (pos n) priv current p = elim (Bool-cases (ltb n 1 || ltb 32 n)) [
  | inl e ↦ rw (send_sig, e) refl
  | inr e ↦ elim (Bool-cases (may_signal priv current p)) [
    | inl m ↦ rw (send_sig, e) (rw m refl)
    | inr m ↦ rw (send_sig, e) (rw m refl)
  ]
]

-- a signal changes nothing but `signal`
pub kill_one_keeps :
    (pid sig : ℤ) (priv : Bool) (current p : Task)
    → kill_one pid sig priv current p
      ≡ record p { signal = (kill_one pid sig priv current p).signal }
unfolding kill_one
kill_one_keeps pid sig priv current p = elim (Bool-cases (is_target pid current p)) [
  | inr e ↦ rw (kill_one, e) refl
  | inl e ↦ rw (kill_one, e) (send_sig_keeps sig priv current p)
]

-- the loop finds the zombie at `c` if no task at another index is waited for
pub find_child-zombie :
    (pid : ℤ) (current : Task) (self c : ℕ) (ts : Tasks) (z : Task) (n : ℕ) (flag : Bool)
    → ((j : ℕ) (u : Task)
        → 1 ≤ j
        → j ≢ c
        → get_or ts j none ≡ some u
        → is_waited pid current u ≡ false)
    → get_or ts c none ≡ some z
    → is_waited pid current z ≡ true
    → z.state ≡ task_zombie
    → c ≢ self
    → 1 ≤ c
    → c ≤ n
    → find_child pid current self ts n flag ≡ zombie c z
unfolding find_child look_at
find_child-zombie pid current self c ts z zero flag others at w s ne a b = absurd (omega arith)
find_child-zombie pid current self c ts z (suc n) flag others at w s ne a b =
    elim (Bool-cases (c == suc n)) [
      | inl here ↦
          let here' : suc n ≡ c = ground arith in
          let other : suc n == self ≡ false = ground arith in
          let at' : get_or ts (suc n) none ≡ some z = ap (λ k. get_or ts k none) here' ∙ at in
          let dead : z.state == task_zombie ≡ true = ground arith in
          rw (find_child, other) (rw (at', look_at) (rw w (rw dead (ap (λ k. zombie k z) here'))))
      | inr later ↦
          let le : c ≤ n = ground arith in
          let rest : (flag : Bool) → find_child pid current self ts n flag ≡ zombie c z =
            λ flag. find_child-zombie pid current self c ts z n flag others at w s ne a le in
          elim (Bool-cases (suc n == self)) [
            | inl own ↦ rw (find_child, own) (rest flag)
            | inr other ↦ elim (Option-cases (get_or ts (suc n) none)) [
              | inl e ↦ rw (find_child, other) (rw (e, look_at) (rest flag))
              | inr (u, e) ↦
                  let skip = others (suc n) u (omega arith) (ground arith) e in
                  rw (find_child, other) (rw (e, look_at) (rw skip (rest flag)))
            ]
          ]
    ]
