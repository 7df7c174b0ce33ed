-- ===== src/Sched/Sleep.antt =====
-- kernel/sched.c: `sleep_on` and `wake_up` on one wait queue. The queue is a single pointer: a sleeper
-- keeps the one before it in its variable `tmp`, and wakes it when it goes on itself.
use linux_0_01raf.Prelude.{
  ℕ, zero, suc, ◌+◌, ◌≤◌, ◌<◌, ◌≡◌, ◌≢◌, ◌∙◌, ap, sym, refl, ◌⊎◌, inl, inr, false, Option, none,
  some, arith, ◌==◌, if◌then◌else◌, Bool-cases,
}
use linux_0_01raf.Sched.{task_running, task_uninterruptible}

-- `queue` is `*p`. `frame t` is the variable `tmp` of task `t` while it is inside `sleep_on`.
pub record Wait : Type 0 where
  pub queue : Option ℕ
  pub state : ℕ → ℕ
  pub frame : ℕ → Option (Option ℕ)

abbrev pub update {ℓ} : {A : Type ℓ} → (ℕ → A) → ℕ → A → ℕ → A
update f i v j = if j == i then v else f j

-- sleep_on up to its call of `schedule`: tmp = *p; *p = current; current->state = …
unfoldable pub sleep_begin : ℕ → Wait → Wait
sleep_begin current w = record {
  queue = some current;
  state = update w.state current task_uninterruptible;
  frame = update w.frame current (some w.queue);
}

-- if (tmp) tmp->state=0;
unfoldable pub wake_tmp : Option ℕ → (ℕ → ℕ) → ℕ → ℕ
wake_tmp none state = state
wake_tmp (some t) state = update state t task_running

-- sleep_on behind its call of `schedule`
unfoldable pub sleep_end : ℕ → Option ℕ → Wait → Wait
unfolding wake_tmp
sleep_end current tmp w = record w {
  state = wake_tmp tmp w.state;
  frame = update w.frame current none;
}

-- if (p && *p) { (**p).state=0; *p=NULL; }
unfoldable pub wake_up : Wait → Wait
unfolding wake_tmp
wake_up w = record w { queue = none; state = wake_tmp w.queue w.state }

-- One step of the tasks that use the queue, in any order: a task that runs goes to sleep; some code
-- wakes the queue; a task that has been woken goes on.
pub data Step : Wait → Wait → Type 0 where
  sleeps : (t : ℕ) (w : Wait) → w.frame t ≡ none → Step w (sleep_begin t w)
  wakes : (w : Wait) → Step w (wake_up w)
  resumes :
      (t : ℕ) (tmp : Option ℕ) (w : Wait)
      → w.frame t ≡ some tmp
      → w.state t ≡ task_running
      → Step w (sleep_end t tmp w)

pub data Reach (s : Wait) : Wait → Type 0 where
  here : Reach s s
  next : {t u : Wait} → Reach s t → Step t u → Reach s u

-- No task is inside `sleep_on`.
pub record IsIdle (w : Wait) : Type 0 where
  pub empty : w.queue ≡ none
  pub no_frame : (t : ℕ) → w.frame t ≡ none
  pub awake : (t : ℕ) → w.state t ≡ task_running

-- when each task that is inside `sleep_on` entered it
record Linked (w : Wait) (entered : ℕ → ℕ) (clock : ℕ) : Type 0 where
  past : (t : ℕ) → entered t < clock
  -- a task that does not run is the queue's, or the `tmp` of a task that entered later
  linked :
      (t : ℕ)
      → w.state t ≢ task_running
      → (w.queue ≡ some t) ⊎ ((u : ℕ) × (w.frame u ≡ some (some t)) × (entered t < entered u))

Linked-sleeps :
    {w : Wait} {entered : ℕ → ℕ} {clock : ℕ} (t : ℕ)
    → w.frame t ≡ none
    → Linked w entered clock
    → Linked (sleep_begin t w) (update entered t clock) (clock + 1)
unfolding sleep_begin
Linked-sleeps {w} {entered} {clock} t f l = record {
  past = λ v. ground (arith, l.past v);
  linked = λ v ne. elim (Bool-cases (v == t)) [
    | inl e ↦ let e' : v ≡ t = ground arith in inl (rw e')
    | inr d ↦ elim (l.linked v (rw d at ne)) [
      | inl q ↦ inr (t, ground arith, ground (arith, l.past v))
      | inr (u, h, b) ↦
          let a : (u == t) ≡ false = elim (Bool-cases (u == t)) [
            | inl e ↦ let e' : u ≡ t = ground arith in cc (sym (ap w.frame e') ∙ h)
            | inr d' ↦ d'
          ] in
          inr (u, rw a h, rw (a, d) b)
    ]
  ];
}

Linked-wakes :
    {w : Wait} {entered : ℕ → ℕ} {clock : ℕ}
    → Linked w entered clock
    → Linked (wake_up w) entered clock
unfolding wake_up
Linked-wakes {w} {entered} l = record { past = l.past; linked = λ v ne. at w.queue refl v ne }
  where
    at :
        (q : Option ℕ)
        → w.queue ≡ q
        → (v : ℕ) → wake_tmp q w.state v ≢ task_running
        → (none ≡ some v) ⊎ ((u : ℕ) × (w.frame u ≡ some (some v)) × (entered v < entered u))
    at none e v ne = elim (l.linked v ne) [ inl q ↦ cc (sym e ∙ q) | inr later ↦ inr later ]
    at (some h) e v ne = elim (Bool-cases (v == h)) [
      | inl same ↦ absurd (ne (rw same))
      | inr other ↦ elim (l.linked v (rw other at ne)) [
        | inl q ↦ let q' : some h ≡ some v = sym e ∙ q in absurd (ground arith)
        | inr later ↦ inr later
      ]
    ]

Linked-resumes :
    {w : Wait} {entered : ℕ → ℕ} {clock : ℕ} (t : ℕ) (tmp : Option ℕ)
    → w.frame t ≡ some tmp
    → Linked w entered clock
    → Linked (sleep_end t tmp w) entered clock
unfolding sleep_end
Linked-resumes {w} {entered} t tmp f l = record { past = l.past; linked = λ v ne. at tmp f v ne }
  where
    still :
        (v : ℕ) (q : Option ℕ)
        → w.frame t ≡ some q
        → q ≢ some v
        → w.state v ≢ task_running
        → (w.queue ≡ some v)
          ⊎ ((u : ℕ) × (update w.frame t none u ≡ some (some v)) × (entered v < entered u))
    still v q e d ne = elim (l.linked v ne) [
      | inl h ↦ inl h
      | inr (u, h, b) ↦
          let a : (u == t) ≡ false = elim (Bool-cases (u == t)) [
            | inl x ↦
                let x' : u ≡ t = ground arith in
                let y : some q ≡ some (some v) = sym e ∙ sym (ap w.frame x') ∙ h in absurd (d (cc))
            | inr d' ↦ d'
          ] in
          inr (u, rw a h, b)
    ]

    at :
        (q : Option ℕ)
        → w.frame t ≡ some q
        → (v : ℕ) → wake_tmp q w.state v ≢ task_running
        → (w.queue ≡ some v)
          ⊎ ((u : ℕ) × (update w.frame t none u ≡ some (some v)) × (entered v < entered u))
    at none e v ne = still v none e (λ x. cc) ne
    at (some h) e v ne = elim (Bool-cases (v == h)) [
      | inl same ↦ absurd (ne (rw same))
      | inr other ↦ still v (some h) e (λ x. ground arith) (rw other at ne)
    ]

-- along every run there are times of entry that link the sleepers
abbrev Live : Wait → Type 0
Live w = (entered : ℕ → ℕ) × (clock : ℕ) × Linked w entered clock

Step-Live : {w v : Wait} → Step w v → Live w → Live v
Step-Live (sleeps t w f) (entered, clock, l) =
    (update entered t clock, clock + 1, Linked-sleeps t f l)
Step-Live (wakes w) (entered, clock, l) = (entered, clock, Linked-wakes l)
Step-Live (resumes t tmp w f r) (entered, clock, l) = (entered, clock, Linked-resumes t tmp f l)

Reach-Live : {s w : Wait} → IsIdle s → Reach s w → Live w
Reach-Live i here =
    (λ t. 0, 1, record { past = λ t. omega arith; linked = λ t ne. absurd (ne (i.awake t)) })
Reach-Live i (next r st) = Step-Live st (Reach-Live i r)

-- some code can wake the queue, or a task that runs will go on inside `sleep_on`
abbrev pub CanGoOn : Wait → Type 0
CanGoOn w =
    ((t : ℕ) × (w.queue ≡ some t))
    ⊎ ((u : ℕ) × (tmp : Option ℕ) × (w.frame u ≡ some tmp) × (w.state u ≡ task_running))

-- follow the links to later sleepers
follow :
    {w : Wait} {entered : ℕ → ℕ} {clock : ℕ} (fuel t : ℕ)
    → Linked w entered clock
    → clock ≤ entered t + fuel
    → w.state t ≢ task_running
    → CanGoOn w
follow zero t l h ne = absurd (omega (arith, l.past t))
follow {w} (suc fuel) t l h ne = elim (l.linked t ne) [
  | inl q ↦ inl (t, q)
  | inr (u, f, b) ↦ elim (Bool-cases (w.state u == task_running)) [
    | inl runs ↦ inr (u, some t, f, ground arith)
    | inr stopped ↦ follow fuel u l (omega arith) (ground arith)
  ]
]

-- No wakeup is lost. Whatever tasks go to sleep on a queue that starts idle, whenever it is woken and
-- in whatever order woken tasks go on: while a task sleeps, the queue holds a task that the next
-- `wake_up` wakes, or a task that has been woken is still to go on and to wake the one before it.
pub no_lost_wakeup :
    (s w : Wait) (t : ℕ) → IsIdle s → Reach s w → w.state t ≢ task_running → CanGoOn w
no_lost_wakeup s w t i r ne =
    let (entered, clock, l) = Reach-Live i r in follow clock t l (omega arith) ne
