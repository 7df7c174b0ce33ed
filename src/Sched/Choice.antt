-- ===== src/Sched/Choice.antt =====
-- kernel/sched.c: what `schedule` chooses, and that its loop ends.
use linux_0_01raf.Prelude.{
  ℕ, zero, suc, ◌+◌, ◌≤◌, ◌<◌, ◌≡◌, ◌≢◌, ◌∙◌, ap, sym, refl, ◌⊎◌, inl, inr, Bool, true, false, ◌&&◌,
  Option, none, some, [], ◌∷◌, arith, ltb, ◌^◌, ◌%◌, ◌-◌, ◌==◌, Bool-cases, Option-cases, get_or,
}
use mathlib.Core.Option
use linux_0_01raf.Sched.{
  Task, Tasks, nr_tasks, task_running, each_task, but_first, height, lt_long, half, runs_longer,
  counter_of, choose, recharge, schedule_loop, check_alarm, check_task, Kernel, schedule,
}

unfoldable pub is_running : Option Task → Bool
is_running none = false
is_running (some t) = t.state == task_running

runs_longer_lem :
    (t : Option Task) (c : ℕ) → runs_longer t c ≡ (is_running t && lt_long c (counter_of t))
unfolding runs_longer is_running counter_of
runs_longer_lem none c = refl
runs_longer_lem (some t) c = refl

abbrev running : Tasks → ℕ → Bool
running ts j = is_running (get_or ts j none)

-- the counter of a task, by its place in the order of longs
abbrev counter : Tasks → ℕ → ℕ
counter ts j = height (counter_of (get_or ts j none))

-- the index `best` is the highest of the running tasks up to `i` with the longest counter, `c`
record Best (ts : Tasks) (i best c : ℕ) : Type 0 where
  positive : 1 ≤ best
  in_range : best ≤ i
  runs : running ts best ≡ true
  longest : counter ts best ≡ height c
  later : (j : ℕ) → best < j → j ≤ i → running ts j ≡ true → counter ts j < height c

-- what the inner loop over the indices from `i` down has found, started at `c` and `next`
record Scanned (ts : Tasks) (i c next : ℕ) (out : ℕ × ℕ) : Type 0 where
  grows : height c ≤ height out.0
  all_below : (j : ℕ) → 1 ≤ j → j ≤ i → running ts j ≡ true → counter ts j ≤ height out.0
  found : ((out.0 ≡ c) × (out.1 ≡ next)) ⊎ (Best ts i out.1 out.0 × (height c < height out.0))

Best-suc :
    {ts : Tasks} {i best c : ℕ}
    → (running ts (suc i) ≡ true → counter ts (suc i) < height c)
    → Best ts i best c
    → Best ts (suc i) best c
Best-suc {i} h b = record {
  positive = b.positive;
  in_range = omega (arith, b.in_range);
  runs = b.runs;
  longest = b.longest;
  later = λ j x y z. elim (Bool-cases (j == suc i)) [
    | inl e ↦ let e' : j ≡ suc i = ground arith in rw e' (h (rw e' at z))
    | inr ne ↦ b.later j x (ground arith) z
  ];
}

module _ (ts : Tasks) (i c next : ℕ) (out : ℕ × ℕ) where
  Scanned-better :
      runs_longer (get_or ts (suc i) none) c ≡ true
      → Scanned ts i (counter_of (get_or ts (suc i) none)) (suc i) out
      → Scanned ts (suc i) c next out
  Scanned-better better r = record {
    grows = ground (arith, r.grows, lem);
    all_below = λ j x y z. elim (Bool-cases (j == suc i)) [
      | inl e ↦ let e' : j ≡ suc i = ground arith in rw e' (omega (arith, r.grows))
      | inr ne ↦ r.all_below j x (ground arith) z
    ];
    found = inr (at r.found);
  }
    where
      lem :
          runs_longer (get_or ts (suc i) none) c
          ≡ (running ts (suc i) && ltb (height c) (counter ts (suc i)))
      lem = runs_longer_lem (get_or ts (suc i) none) c

      at :
          ((out.0 ≡ counter_of (get_or ts (suc i) none)) × (out.1 ≡ suc i))
            ⊎ (Best ts i out.1 out.0 × (counter ts (suc i) < height out.0))
          → Best ts (suc i) out.1 out.0 × (height c < height out.0)
      at (inr (b, l)) = (Best-suc (λ _. l) b, ground (arith, lem))
      at (inl (e, e')) = (
        record {
          positive = omega arith;
          in_range = omega arith;
          runs = rw e' (ground (arith, lem));
          longest = rw (e, e') refl;
          later = λ j x y z. absurd (omega arith);
        },
        ground (arith, lem),
      )

  Scanned-worse :
      runs_longer (get_or ts (suc i) none) c ≡ false
      → Scanned ts i c next out
      → Scanned ts (suc i) c next out
  Scanned-worse worse r = record {
    grows = r.grows;
    all_below = λ j x y z. elim (Bool-cases (j == suc i)) [
      | inl e ↦
          let e' : j ≡ suc i = ground arith in
          let z' : running ts (suc i) ≡ true = rw e' at z in rw e' (ground (arith, r.grows, lem))
      | inr ne ↦ r.all_below j x (ground arith) z
    ];
    found = at r.found;
  }
    where
      lem :
          runs_longer (get_or ts (suc i) none) c
          ≡ (running ts (suc i) && ltb (height c) (counter ts (suc i)))
      lem = runs_longer_lem (get_or ts (suc i) none) c

      at :
          ((out.0 ≡ c) × (out.1 ≡ next)) ⊎ (Best ts i out.1 out.0 × (height c < height out.0))
          → ((out.0 ≡ c) × (out.1 ≡ next))
            ⊎ (Best ts (suc i) out.1 out.0 × (height c < height out.0))
      at (inl e) = inl e
      at (inr (b, l)) = inr (Best-suc (λ z. ground (arith, lem)) b, l)

choose-Scanned : (ts : Tasks) (i c next : ℕ) → Scanned ts i c next (choose ts i c next)
unfolding choose
choose-Scanned ts zero c next = record {
  grows = omega arith;
  all_below = λ j a b. absurd (omega arith);
  found = inl (refl, refl);
}
choose-Scanned ts (suc i) c next = elim (Bool-cases (runs_longer (get_or ts (suc i) none) c)) [
  | inl better ↦ rw better (
      Scanned-better ts i c next (choose ts i (counter_of (get_or ts (suc i) none)) (suc i)) better
        (choose-Scanned ts i (counter_of (get_or ts (suc i) none)) (suc i)))
  | inr worse ↦
      rw worse (Scanned-worse ts i c next (choose ts i c next) worse (choose-Scanned ts i c next))
]

-- What `schedule` has chosen from the table `ts`. Either the counter of every running task but task 0 is
-- negative, and the choice is task 0; or it is a running task whose counter is positive and at least that of
-- every running task, and greater than that of every running task of a higher index.
pub record Chosen (ts : Tasks) (next : ℕ) : Type 0 where
  pub idle :
      next ≡ 0 → (j : ℕ) → 1 ≤ j → j < nr_tasks → running ts j ≡ true → counter ts j < height 0
  pub busy :
      next ≢ 0
      → (next < nr_tasks)
        × (running ts next ≡ true)
        × (height 0 < counter ts next)
        × ((j : ℕ)
            → 1 ≤ j
            → j < nr_tasks
            → running ts j ≡ true
            → (counter ts j ≤ counter ts next) × (next < j → counter ts j < counter ts next))

abbrev minus_one : ℕ
minus_one = 2 ^ 32 - 1

-- a place above that of -1 is that of 0 for 0 alone
above_zero : (c : ℕ) → height minus_one < height c → (c % 2 ^ 32 == 0) ≡ false → height 0 < height c
unfolding height
above_zero c h e = let e' : c % 2 ^ 32 ≢ 0 = ground arith in omega arith

below_zero : (c : ℕ) → c ≤ height minus_one → c < height 0
unfolding height
below_zero c h = omega arith

-- a scan of all tasks that ends with `c` other than 0
Chosen-of_Scanned :
    (ts : Tasks) (out : ℕ × ℕ)
    → Scanned ts 63 minus_one 0 out
    → (out.0 % 2 ^ 32 == 0) ≡ false
    → Chosen ts out.1
Chosen-of_Scanned ts out r ne = record {
  idle = λ z j x y runs. elim r.found [
    | inl (e, e') ↦ below_zero (counter ts j) (rw e at (r.all_below j x (omega arith) runs))
    | inr (b, l) ↦ absurd (omega (arith, b.positive))
  ];
  busy = λ nz. elim r.found [
    | inl (e, e') ↦ absurd (nz e')
    | inr (b, l) ↦ (
      omega (arith, b.in_range),
      b.runs,
      rw (← b.longest) at (above_zero out.0 l ne),
      λ j x y z. (
        omega (arith, b.longest, r.all_below j x (omega arith) z),
        λ h. omega (arith, b.longest, b.later j h (omega arith) z),
      ),
    )
  ];
}

-- every task but task 0 has a positive priority
abbrev pub HasPriority : Tasks → Type 0
HasPriority ts =
    (j : ℕ) (t : Task) → 1 ≤ j → get_or ts j none ≡ some t → lt_long 0 t.priority ≡ true

pub get_or-each_task :
    (f : Task → Task) (ts : Tasks) (j : ℕ)
    → get_or (each_task f ts) j none ≡ Option.map f (get_or ts j none)
unfolding each_task
get_or-each_task f [] j = refl
get_or-each_task f (none ∷ ts) zero = refl
get_or-each_task f (some t ∷ ts) zero = refl
get_or-each_task f (none ∷ ts) (suc j) = get_or-each_task f ts j
get_or-each_task f (some t ∷ ts) (suc j) = get_or-each_task f ts j

pub get_or-but_first :
    (f : Task → Task) (ts : Tasks) (j : ℕ)
    → 1 ≤ j
    → get_or (but_first (each_task f) ts) j none ≡ Option.map f (get_or ts j none)
get_or-but_first f [] j h = refl
get_or-but_first f (t ∷ ts) zero h = elim h [ ]
get_or-but_first f (t ∷ ts) (suc j) h = get_or-each_task f ts j

-- a change of every task that keeps the priorities keeps them positive
pub HasPriority-each :
    (f : Task → Task) (ts : Tasks)
    → ((t : Task) → (f t).priority ≡ t.priority)
    → HasPriority ts
    → HasPriority (but_first (each_task f) ts)
HasPriority-each f ts keep h j t x e = elim (Option-cases (get_or ts j none)) [
  | inl gone ↦ cc (get_or-but_first f ts j x)
  | inr (u, there) ↦
      let same : some (f u) ≡ some t =
        ap (Option.map f) (sym there) ∙ sym (get_or-but_first f ts j x) ∙ e in
      let same' : f u ≡ t = cc in rw (← same') (ap (lt_long 0) (keep u) ∙ h j u x there)
]

recharged_running :
    (ts : Tasks) (j : ℕ) → 1 ≤ j → running (but_first (each_task recharge) ts) j ≡ running ts j
unfolding is_running recharge
recharged_running ts j h = rw (get_or-but_first recharge ts j h) (at (get_or ts j none))
  where
    at : (t : Option Task) → is_running (Option.map recharge t) ≡ is_running t
    at none = refl
    at (some t) = refl

-- what recharging makes of a counter of 0
recharged_zero :
    (c p : ℕ) → height c ≡ height 0 → lt_long 0 p ≡ true → height 0 < height ((half c + p) % 2 ^ 32)
unfolding height half
recharged_zero c p h l = let l' : (2 ^ 31) < (p + 2 ^ 31) % 2 ^ 32 = ground arith in omega arith

recharged_counter :
    (ts : Tasks) (j : ℕ)
    → 1 ≤ j
    → HasPriority ts
    → running ts j ≡ true
    → counter ts j ≡ height 0
    → height 0 < counter (but_first (each_task recharge) ts) j
unfolding is_running recharge counter_of
recharged_counter ts j h p r z =
    rw (get_or-but_first recharge ts j h) (at (get_or ts j none) refl r z)
  where
    at :
        (t : Option Task)
        → get_or ts j none ≡ t
        → is_running t ≡ true
        → height (counter_of t) ≡ height 0
        → height 0 < height (counter_of (Option.map recharge t))
    at none e r' z' = cc
    at (some t) e r' z' = recharged_zero t.counter t.priority z' (p j t h e)

-- a place of 0 is that of -1 for no pattern, and that of 0 for the multiples of 2 ^ 32
zero_place : (c : ℕ) → (c % 2 ^ 32 == 0) ≡ true → height c ≡ height 0
unfolding height
zero_place c h = let e : c % 2 ^ 32 ≡ 0 = ground arith in omega arith

recharge-priority : (t : Task) → (recharge t).priority ≡ t.priority
unfolding recharge
recharge-priority t = refl

-- The scheduler's loop ends in at most two rounds, if every task but task 0 has a positive priority.
schedule_loop-Chosen :
    (ts : Tasks)
    → HasPriority ts
    → (us : Tasks) × (next : ℕ) × (schedule_loop 2 ts ≡ some (us, next))
      × Chosen us next
      × HasPriority us
unfolding schedule_loop
schedule_loop-Chosen ts p = elim (Bool-cases (first.0 % 2 ^ 32 == 0)) [
  | inr other ↦ (
    ts,
    first.1,
    rw (schedule_loop, other),
    Chosen-of_Scanned ts first (choose-Scanned ts 63 minus_one 0) other,
    p,
  )
  | inl again ↦
      let us = but_first (each_task recharge) ts in
      let second = choose us 63 minus_one 0 in
      let stop = second_stops again in
      (
        us,
        second.1,
        rw (schedule_loop, again) (rw (schedule_loop, stop)),
        Chosen-of_Scanned us second (choose-Scanned us 63 minus_one 0) stop,
        HasPriority-each recharge ts recharge-priority p,
      )
]
  where
    first : ℕ × ℕ
    first = choose ts 63 minus_one 0

    second_stops :
        (first.0 % 2 ^ 32 == 0) ≡ true
        → ((choose (but_first (each_task recharge) ts) 63 minus_one 0).0 % 2 ^ 32 == 0) ≡ false
    second_stops again =
        let us = but_first (each_task recharge) ts in
        let second = choose us 63 minus_one 0 in
        let r' = choose-Scanned us 63 minus_one 0 in
        elim (Bool-cases (second.0 % 2 ^ 32 == 0)) [
          | inr other ↦ other
          | inl again' ↦ elim (choose-Scanned ts 63 minus_one 0).found [
            | inl (e, e') ↦ absurd (ground (arith, e))
            | inr (b, l) ↦
                let more =
                  recharged_counter ts first.1 b.positive p b.runs
                    (b.longest ∙ zero_place first.0 again) in
                let runs = recharged_running ts first.1 b.positive ∙ b.runs in
                absurd (
                  omega (
                    arith,
                    zero_place second.0 again',
                    more,
                    r'.all_below first.1 b.positive b.in_range runs,
                  ))
          ]
        ]

check_task-priority : (jiffies : ℕ) (t : Task) → (check_task jiffies t).priority ≡ t.priority
unfolding check_task check_alarm
check_task-priority jiffies t = ground arith

-- If every task but task 0 has a positive priority, `schedule` comes to a choice, and the task that
-- it makes the current one is chosen rightly from the table that it leaves, on counters of 32 bits with
-- their sign: task 0 only if no other running task has a counter of at least 0, else a running task with
-- the longest counter, which is positive, and of several such the one with the highest index. The
-- priorities stay positive, and the clock stands still.
pub schedule-Chosen :
    (k : Kernel)
    → HasPriority k.task
    → (k' : Kernel) × (schedule k ≡ some k')
      × Chosen k'.task k'.current
      × HasPriority k'.task
      × (k'.jiffies ≡ k.jiffies)
unfolding schedule
schedule-Chosen k p =
    let (us, next, e, c, p') =
      schedule_loop-Chosen (but_first (each_task (check_task k.jiffies)) k.task)
        (HasPriority-each (check_task k.jiffies) k.task (check_task-priority k.jiffies) p) in
    (record k { task = us; current = next }, rw (schedule, e), c, p', refl)

-- a change of every task leaves a free slot
each-free :
    (f : Task → Task) (ts : Tasks) (j : ℕ)
    → 1 ≤ j
    → get_or ts j none ≡ none
    → get_or (but_first (each_task f) ts) j none ≡ none
each-free f ts j h e = get_or-but_first f ts j h ∙ ap (Option.map f) e

schedule_loop-free :
    (fuel : ℕ) (ts us : Tasks) (next j : ℕ)
    → 1 ≤ j
    → get_or ts j none ≡ none
    → schedule_loop fuel ts ≡ some (us, next)
    → get_or us j none ≡ none
unfolding schedule_loop
schedule_loop-free zero ts us next j h e r = absurd (cc r)
schedule_loop-free (suc fuel) ts us next j h e r =
    elim (Bool-cases ((choose ts 63 minus_one 0).0 % 2 ^ 32 == 0)) [
      | inl again ↦
          schedule_loop-free fuel (but_first (each_task recharge) ts) us next j h
            (each-free recharge ts j h e) (sym (rw (schedule_loop, again) refl) ∙ r)
      | inr other ↦
          let now : some (ts, (choose ts 63 minus_one 0).1) ≡ some (us, next) =
            sym (rw (schedule_loop, other) refl) ∙ r in
          let same : ts ≡ us = cc now in ap (λ w. get_or w j none) (sym same) ∙ e
    ]

-- `schedule` leaves a free slot free
pub schedule-free :
    (k k' : Kernel) (j : ℕ)
    → 1 ≤ j
    → get_or k.task j none ≡ none
    → schedule k ≡ some k'
    → get_or k'.task j none ≡ none
unfolding schedule
schedule-free k k' j h e r =
    elim (Option-cases (schedule_loop 2 (but_first (each_task (check_task k.jiffies)) k.task))) [
      | inl stuck ↦
          let now : none ≡ some k' = sym (rw (schedule, stuck) refl) ∙ r in absurd (cc now)
      | inr (found, l) ↦
          let now : some (record k { task = found.0; current = found.1 }) ≡ some k' =
            sym (rw (schedule, l) refl) ∙ r in
          let same : record k { task = found.0; current = found.1 } ≡ k' = cc now in
          ap (λ (w : Kernel). get_or w.task j none) (sym same)
          ∙ schedule_loop-free 2 (but_first (each_task (check_task k.jiffies)) k.task) found.0
              found.1 j h (each-free (check_task k.jiffies) k.task j h e) l
    ]
