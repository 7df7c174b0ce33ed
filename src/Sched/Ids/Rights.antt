-- ===== src/Sched/Ids/Rights.antt =====
-- kernel/sys.c: who can become whom.
use linux_0_01raf.Prelude.{
  ℕ, ◌<◌, ◌≡◌, ◌≢◌, ap, refl, inl, inr, true, false, not, ◌&&◌, ◌||◌, List, [], ◌∷◌, arith, ◌==◌,
  Bool-cases,
}
use linux_0_01raf.Sched.{Task}
use linux_0_01raf.Sched.Ids.{is_user, sys_setgid, sys_setuid, sys_setsid, sys_brk, sys_umask}

-- the calls by which a task changes its own rights
pub data Call : Type 0 where
  setuid : ℕ → Call
  setgid : ℕ → Call
  setsid : Call
  brk : ℕ → Call
  umask : ℕ → Call

unfoldable pub call : Call → Task → Task
call (setuid uid) t = (sys_setuid uid t).1
call (setgid gid) t = (sys_setgid gid t).1
call setsid t = (sys_setsid t).1
call (brk end_data_seg) t = (sys_brk end_data_seg t).1
call (umask mask) t = (sys_umask mask t).1

unfoldable pub calls : List Call → Task → Task
calls [] t = t
calls (c ∷ cs) t = calls cs (call c t)

-- a task without rights, whose saved user is not its real one
pub record IsConfined (uid : ℕ) (t : Task) : Type 0 where
  pub real : t.uid ≡ uid
  pub user : t.uid ≢ 0
  pub effective : t.euid ≢ 0
  pub saved : t.suid ≢ t.uid
  pub short : t.uid < 65536

IsConfined-same :
    (uid : ℕ) (t u : Task)
    → u.uid ≡ t.uid
    → u.euid ≡ t.euid
    → u.suid ≡ t.suid
    → IsConfined uid t
    → IsConfined uid u
IsConfined-same uid t u a b c k = record {
  real = omega (arith, k.real);
  user = omega (arith, k.user);
  effective = omega (arith, k.effective);
  saved = omega (arith, k.saved);
  short = omega (arith, k.short);
}

sys_setuid-IsConfined :
    (uid id : ℕ) (t : Task) → IsConfined uid t → IsConfined uid (sys_setuid id t).1
unfolding sys_setuid is_user
sys_setuid-IsConfined uid id t k = elim (Bool-cases (id == t.uid)) [
  | inl own ↦
      rw (sys_setuid, is_user, user)
        (rw own (record {
          real = k.real;
          user = k.user;
          effective = ground (arith, k.user, k.short);
          saved = k.saved;
          short = k.short;
        }))
  | inr other ↦ rw (sys_setuid, is_user, user) (rw (other, saved) k)
]
  where
    user : (not (t.euid == 0) && not (t.uid == 0)) ≡ true
    user = ground (arith, k.user, k.effective)

    saved : (t.suid == t.uid) ≡ false
    saved = ground (arith, k.saved)

call-IsConfined : (uid : ℕ) (c : Call) (t : Task) → IsConfined uid t → IsConfined uid (call c t)
unfolding call sys_setgid sys_setsid sys_brk sys_umask
call-IsConfined uid (setuid id) t k = sys_setuid-IsConfined uid id t k
call-IsConfined uid (setgid gid) t k =
    IsConfined-same uid t (call (setgid gid) t) (ground arith) (ground arith) (ground arith) k
call-IsConfined uid setsid t k =
    IsConfined-same uid t (call setsid t) (ground arith) (ground arith) (ground arith) k
call-IsConfined uid (brk end_data_seg) t k =
    IsConfined-same uid t (call (brk end_data_seg) t) (ground arith) (ground arith) (ground arith) k
call-IsConfined uid (umask mask) t k = IsConfined-same uid t (call (umask mask) t) refl refl refl k

-- No sequence of `setuid`, `setgid`, `setsid`, `brk` and `umask`, with any arguments, gives a task
-- without rights those of another user, as long as its saved user is not its real one: the real user
-- stays, and neither it nor the effective one is ever root.
pub calls-IsConfined :
    (uid : ℕ) (cs : List Call) (t : Task) → IsConfined uid t → IsConfined uid (calls cs t)
unfolding calls
calls-IsConfined uid [] t k = k
calls-IsConfined uid (c ∷ cs) t k = calls-IsConfined uid cs (call c t) (call-IsConfined uid c t k)

-- A task without rights whose saved user is its real one takes any effective user that it asks for,
-- root included, and one call more makes it root altogether.
pub sys_setuid-root :
    (t : Task)
    → t.uid ≢ 0
    → t.euid ≢ 0
    → t.suid ≡ t.uid
    → (calls (setuid 0 ∷ []) t ≡ record t { euid = 0 })
      × (calls (setuid 0 ∷ setuid 0 ∷ []) t ≡ record t { euid = 0; uid = 0 })
unfolding calls call sys_setuid is_user
sys_setuid-root t u e s = (first, ap (call (setuid 0)) first)
  where
    user : (not (t.euid == 0) && not (t.uid == 0)) ≡ true
    user = ground arith

    saved : ((0 == t.uid) || (t.suid == t.uid)) ≡ true
    saved = ground arith

    first : call (setuid 0) t ≡ record t { euid = 0 }
    first = rw (call, sys_setuid, is_user, user) (rw saved refl)
