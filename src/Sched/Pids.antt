-- ===== src/Sched/Pids.antt =====
-- kernel/fork.c: fork ends, and numbers its child as no task is numbered.
use linux_0_01raf.Prelude.{
  equal, ℕ, zero, suc, ◌+◌, ◌^◌, ◌%◌, ◌≤◌, ◌<◌, ◌≡◌, ◌≢◌, ◌∙◌, ap, refl, ◌⊎◌, inl, inr, Bool, true,
  false, ◌&&◌, Option, none, some, [], ◌∷◌, ltb, ◌==◌, if◌then◌else◌, length, get_or, set, arith,
  Bool-cases,
}
use linux_0_01raf.Prelude.Int.{ℤ, pos, negsuc}
use linux_0_01raf.Sched.{Task, Tasks}
use linux_0_01raf.Sched.Signals.{eq_ℤ}
use linux_0_01raf.Sched.Fork.{
  next_pid, has_pid, is_taken, find_pid, is_free, free_slot, find_empty_process, child, Forked,
  eagain, copy_process, sys_fork,
}

-- the first number up to a bound that passes a test, or none does
search :
    (test : ℕ → Bool) (n : ℕ)
    → ((j : ℕ) × (j < n) × (test j ≡ true)) ⊎ ((j : ℕ) → j < n → test j ≡ false)
search test zero = inr (λ j h. absurd (omega arith))
search test (suc n) = elim (Bool-cases (test n)) [
  | inl here ↦ inl (n, omega arith, here)
  | inr not_here ↦ elim (search test n) [
    | inl (j, h, e) ↦ inl (j, omega arith, e)
    | inr none_ ↦ inr (λ j h. elim (Bool-cases (j == n)) [
      | inl last ↦ ap test (equal j n last) ∙ not_here
      | inr before ↦ none_ j (ground arith)
    ])
  ]
]

-- the places of a sequence without the place `k`
unfoldable shift : ℕ → ℕ → ℕ
shift k j = if ltb j k then j else j + 1

shift-le : (k j n : ℕ) → j ≤ n → shift k j ≤ suc n
unfolding shift
shift-le k j n h = ground arith

shift-ne : (k j : ℕ) → shift k j ≢ k
unfolding shift
shift-ne k j = ground arith

shift_cancel : (k i j : ℕ) → shift k i ≡ shift k j → i ≡ j
unfolding shift
shift_cancel k i j = ground arith

one_number : (z : ℤ) (p q : ℕ) → eq_ℤ z (pos p) ≡ true → eq_ℤ z (pos q) ≡ true → p ≡ q
unfolding eq_ℤ
one_number (pos n) p q h k = ground arith
one_number (negsuc n) p q h k = absurd (cc h)

one_pid : (p q : ℕ) (t : Option Task) → has_pid p t ≡ true → has_pid q t ≡ true → p ≡ q
unfolding has_pid
one_pid p q none h k = absurd (cc h)
one_pid p q (some t) h k = one_number t.pid p q h k

other_number : (p q : ℕ) (t : Option Task) → has_pid q t ≡ true → p ≢ q → has_pid p t ≡ false
other_number p q t h ne = elim (Bool-cases (has_pid p t)) [
  | inl hit ↦ absurd (ne (one_pid p q t hit h))
  | inr miss ↦ miss
]

Apart : ℕ → (ℕ → ℕ) → Type 0
Apart n f = (i j : ℕ) → i ≤ n → j ≤ n → f i ≡ f j → i ≡ j

untaken :
    (p : ℕ) (t : Option Task) (ts : Tasks)
    → has_pid p t ≡ false
    → is_taken p ts ≡ false
    → is_taken p (t ∷ ts) ≡ false
unfolding is_taken
untaken p t ts h k = rw (h, k) refl

nobody : (p : ℕ) → is_taken p [] ≡ false
unfolding is_taken
nobody p = refl

-- of more numbers than there are slots, one is no task's
pigeonhole :
    (ts : Tasks) (f : ℕ → ℕ)
    → Apart (length ts) f
    → (j : ℕ) × (j ≤ length ts) × (is_taken (f j) ts ≡ false)
unfolding Apart
pigeonhole [] f inj = (0, omega arith, nobody (f 0))
pigeonhole (t ∷ ts) f inj = elim (search (λ j. has_pid (f j) t) (suc (suc (length ts)))) [
  | inl (k, hk, e) ↦
      let (j, hj, free) =
        pigeonhole ts (λ j. f (shift k j))
          (λ i j a b same.
            shift_cancel k i j
              (inj (shift k i) (shift k j) (shift-le k i _ a) (shift-le k j _ b) same)) in
      (
        shift k j,
        shift-le k j _ hj,
        untaken (f (shift k j)) t ts
            (other_number (f (shift k j)) (f k) t e
              (λ same. shift-ne k j (inj (shift k j) k (shift-le k j _ hj) (omega arith) same)))
            free,
      )
  | inr none_ ↦
      let (j, hj, free) =
        pigeonhole ts f (λ i j a b same. inj i j (omega arith) (omega arith) same) in
      (j, omega arith, untaken (f j) t ts (none_ j (omega arith)) free)
]

-- the numbers that the loop tries
pid_at : ℕ → ℕ → ℕ
pid_at last_pid j = (last_pid + j) % 2147483647 + 1

pid_at-Apart : (last_pid n : ℕ) → n ≤ 64 → Apart n (pid_at last_pid)
unfolding Apart pid_at
pid_at-Apart last_pid n h i j a b = grind arith

-- a number that no task has
unfoldable pub IsNew : ℕ → Tasks → Type 0
IsNew pid task = (0 < pid) × (pid < 2 ^ 31) × (is_taken pid task ≡ false)

next_pid-bounds :
    (last_pid : ℕ) → last_pid < 2 ^ 31 → (0 < next_pid last_pid) × (next_pid last_pid < 2 ^ 31)
unfolding next_pid
next_pid-bounds last_pid h = ground arith

next_pid-pid_at : (last_pid : ℕ) → last_pid < 2 ^ 31 → next_pid last_pid ≡ pid_at last_pid 0
unfolding next_pid pid_at
next_pid-pid_at last_pid h = ground arith

pid_at-next_pid :
    (last_pid j : ℕ) → last_pid < 2 ^ 31 → pid_at (next_pid last_pid) j ≡ pid_at last_pid (suc j)
unfolding next_pid pid_at
pid_at-next_pid last_pid j h = ground arith

find_pid-IsNew :
    (n j last_pid : ℕ) (task : Tasks)
    → j < n
    → last_pid < 2 ^ 31
    → is_taken (pid_at last_pid j) task ≡ false
    → (pid : ℕ) × (find_pid n last_pid task ≡ some pid) × IsNew pid task
unfolding find_pid IsNew
find_pid-IsNew zero j last_pid task h b free = absurd (omega arith)
find_pid-IsNew (suc n) zero last_pid task h b free =
    let now : is_taken (next_pid last_pid) task ≡ false =
      ap (λ p. is_taken p task) (next_pid-pid_at last_pid b) ∙ free in
    let bounds = next_pid-bounds last_pid b in
    (next_pid last_pid, rw now refl, (bounds.0, bounds.1, now))
find_pid-IsNew (suc n) (suc j) last_pid task h b free =
    let bounds = next_pid-bounds last_pid b in
    elim (Bool-cases (is_taken (next_pid last_pid) task)) [
      | inl taken ↦
          let rest =
            find_pid-IsNew n j (next_pid last_pid) task (omega arith) bounds.1
              (ap (λ p. is_taken p task) (pid_at-next_pid last_pid j b) ∙ free) in
          (rest.0, rw taken (rest.1), rest.2)
      | inr now ↦ (next_pid last_pid, rw now refl, (bounds.0, bounds.1, now))
    ]

-- a slot of the range that is free
unfoldable FreeSlot : ℕ → ℕ → Tasks → Option ℕ → Type 0
FreeSlot i n task none = (k : ℕ) → i ≤ k → k < i + n → is_free (get_or task k none) ≡ false
FreeSlot i n task (some k) = (i ≤ k) × (k < i + n) × (is_free (get_or task k none) ≡ true)

wider :
    (n i : ℕ) (task : Tasks) (o : Option ℕ)
    → is_free (get_or task i none) ≡ false
    → FreeSlot (i + 1) n task o
    → FreeSlot i (suc n) task o
unfolding FreeSlot
wider n i task none taken f = λ k a b. elim (Bool-cases (k == i)) [
  | inl same ↦ ap (λ q. is_free (get_or task q none)) (equal k i same) ∙ taken
  | inr other ↦ f k (ground arith) (omega arith)
]
wider n i task (some k) taken (a, b, e) = (omega arith, omega arith, e)

free_slot-FreeSlot : (n i : ℕ) (task : Tasks) → FreeSlot i n task (free_slot n i task)
unfolding free_slot FreeSlot
free_slot-FreeSlot zero i task = λ k a b. absurd (omega arith)
free_slot-FreeSlot (suc n) i task = elim (Bool-cases (is_free (get_or task i none))) [
  | inl free ↦ rw free (omega arith, omega arith, free)
  | inr taken ↦
      rw taken (wider n i task (free_slot n (i + 1) task) taken (free_slot-FreeSlot n (i + 1) task))
]

-- the two ends of a call of fork
unfoldable pub IsFork : Bool → Task → Tasks → Forked → Type 0
IsFork memory current task r =
    ((r.answer ≡ eagain)
      × (r.task ≡ task)
      × ((memory ≡ false) ⊎ ((k : ℕ) → 1 ≤ k → k < 64 → is_free (get_or task k none) ≡ false)))
    ⊎ ((nr : ℕ) × (1 ≤ nr)
        × (nr < 64)
        × (is_free (get_or task nr none) ≡ true)
        × IsNew r.last_pid task
        × (r.answer ≡ pos r.last_pid)
        × ((c : Task) × (r.task ≡ set task nr (some c))
            × (c.pid ≡ pos r.last_pid)
            × (c.father ≡ current.pid)
            × (c.state ≡ 0)
            × (c.counter ≡ current.priority)
            × (c.signal ≡ 0)
            × (c.alarm ≡ 0)))

forked :
    (page copies : Bool) (pid : ℕ) (current : Task) (task : Tasks) (slot : Option ℕ)
    → IsNew pid task
    → FreeSlot 1 63 task slot
    → (r : Forked) × ((elim slot [
      | none ↦ some (record { answer = eagain; last_pid = pid; task = task })
      | some nr ↦ some (copy_process page copies nr pid current task)
    ])
        ≡ some r)
      × IsFork (page && copies) current task r
unfolding IsFork copy_process child FreeSlot
forked page copies pid current task none new f = (_, refl, inl (refl, refl, inr (λ k a b. f k a b)))
forked page copies pid current task (some nr) new (a, b, e) = elim (Bool-cases (page && copies)) [
  | inl ok ↦ rw ok (
    _,
    refl,
    inr (nr, a, b, e, new, refl, (child pid current, refl, refl, refl, refl, refl, refl, refl)),
  )
  | inr short ↦ rw short (_, refl, inl (refl, refl, inl refl))
]

-- In a table of 64 slots, from any last number that is not negative: `fork` returns. It answers -EAGAIN and
-- leaves the table, if memory is short or no slot from 1 on is free; or it answers a number from 1 on that
-- no task has, and puts a task into such a slot: a running one with that number, the caller as its father,
-- the caller's priority as its counter, no signal and no alarm.
pub sys_fork-IsFork :
    (page copies : Bool) (last_pid : ℕ) (current : Task) (task : Tasks)
    → length task ≡ 64
    → last_pid < 2 ^ 31
    → (r : Forked) × (sys_fork page copies last_pid current task ≡ some r)
      × IsFork (page && copies) current task r
unfolding sys_fork find_empty_process
sys_fork-IsFork page copies last_pid current task size h =
    let (j, hj, free) =
      pigeonhole task (pid_at last_pid) (pid_at-Apart last_pid (length task) (omega arith)) in
    let found = find_pid-IsNew 65 j last_pid task (omega arith) h free in
    rw (sys_fork, find_empty_process, found.1)
      (forked page copies found.0 current task (free_slot 63 1 task) found.2
        (free_slot-FreeSlot 63 1 task))
