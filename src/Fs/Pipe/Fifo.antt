-- ===== src/Fs/Pipe/Fifo.antt =====
-- fs/pipe.c: a pipe is a queue. Whatever its readers and writers do, what was read and what the pipe
-- holds is what was written, in order.
use linux_0_01raf.Prelude.{
  inl, inr, ℕ, zero, suc, ◌+◌, ◌-◌, ◌%◌, ◌<◌, ◌≢◌, ◌≡◌, ◌∙◌, ap, sym, refl, false, none, List, [],
  ◌∷◌, ◌++◌, arith, ◌==◌, Bool-cases, Option-cases, length, set, length-set,
}
use mathlib.Core.List.{append-nil, append_assoc}
use linux_0_01raf.Ring.{stretch, stretch-set}
use linux_0_01raf.Fs.Pipe.System.{
  System, Event, read, write, go_on, close, pick, did_read, did_write, go_on_with, handle, run,
  new_pipe,
}
use linux_0_01raf.Fs.Pipe.{
  Call, reading, writing, Inode, Result, pipe_size, pipe_empty, pipe_full, inc_pipe, add_chain,
  wake_up, sleep_on, next_byte, take_byte, put_byte, drain, read_pipe, write_loop, write_pipe,
  iput_pipe, contents, get_pipe_inode,
}

pub IsPipe : Inode → Type 0
IsPipe inode = (length inode.page ≡ 4096) × (inode.head < 4096) × (inode.tail < 4096)

pipe_size-put_byte :
    (h t : ℕ)
    → h < 4096
    → t < 4096
    → (h + 4294967296 - t) % 4096 ≢ 4095
    → ((h + 1) % 4096 + 4294967296 - t) % 4096 ≡ suc ((h + 4294967296 - t) % 4096)
pipe_size-put_byte h t a b n = grind arith

pipe_size-take_byte :
    (h t : ℕ)
    → h < 4096
    → t < 4096
    → h ≢ t
    → (h + 4294967296 - t) % 4096 ≡ suc ((h + 4294967296 - (t + 1) % 4096) % 4096)
pipe_size-take_byte h t a b n = grind arith

head_of : (h t : ℕ) → h < 4096 → t < 4096 → h ≡ (t + (h + 4294967296 - t) % 4096) % 4096
head_of h t a b = grind arith

put_byte-contents :
    (byte : ℕ) (i : Inode)
    → IsPipe i
    → pipe_full i ≡ false
    → contents (put_byte byte i) ≡ contents i ++ (byte ∷ [])
unfolding put_byte contents pipe_size pipe_full inc_pipe IsPipe
put_byte-contents byte i (l, a, b) notfull =
    let ne : (i.head + 4294967296 - i.tail) % 4096 ≢ 4095 = ground arith in
    let grown = pipe_size-put_byte i.head i.tail a b ne in
    ap (stretch (set i.page i.head byte) 4096 i.tail) grown
    ∙ stretch-set i.page 4096 byte (pipe_size i) i.tail i.head (omega arith) b (omega arith)
        (head_of i.head i.tail a b)

put_byte-IsPipe : (byte : ℕ) (i : Inode) → IsPipe i → IsPipe (put_byte byte i)
unfolding put_byte inc_pipe IsPipe
put_byte-IsPipe byte i (l, a, b) = (length-set i.page i.head byte ∙ l, omega arith, b)

take_byte-contents :
    (i : Inode)
    → IsPipe i
    → pipe_empty i ≡ false
    → contents i ≡ next_byte i ∷ contents (take_byte i)
unfolding take_byte contents pipe_size pipe_empty inc_pipe IsPipe next_byte stretch
take_byte-contents i (l, a, b) more =
    let ne : i.head ≢ i.tail = ground arith in
    ap (stretch i.page 4096 i.tail) (pipe_size-take_byte i.head i.tail a b ne)

take_byte-IsPipe : (i : Inode) → IsPipe i → IsPipe (take_byte i)
unfolding take_byte inc_pipe IsPipe
take_byte-IsPipe i (l, a, b) = (l, a, omega arith)

-- what a reader takes comes off the front
abbrev Takes : Inode → Result → Type 0
Takes i r = IsPipe r.inode × (contents i ≡ r.moved ++ contents r.inode)

-- what a writer gives goes to the back
abbrev Gives : Inode → Result → Type 0
Gives i r = IsPipe r.inode × (contents r.inode ≡ contents i ++ r.moved)

drain-Takes : (count : ℕ) (i : Inode) → IsPipe i → Takes i (drain count i)
unfolding drain
drain-Takes zero i p = (p, refl)
drain-Takes (suc count) i p = elim (Bool-cases (pipe_empty i)) [
  | inl e ↦ rw (drain, e) (p, refl)
  | inr e ↦
      let (p', c) = drain-Takes count (take_byte i) (take_byte-IsPipe i p) in
      rw (drain, e) (p', take_byte-contents i p e ∙ ap (◌∷◌ (next_byte i)) c)
]

read_pipe-Takes : (count : ℕ) (i : Inode) → IsPipe i → Takes i (read_pipe count i)
unfolding wake_up sleep_on IsPipe contents pipe_size read_pipe
read_pipe-Takes count i p = elim (Bool-cases (pipe_empty i)) [
  | inr e ↦ rw (read_pipe, e) (drain-Takes count i p)
  | inl e ↦ elim (Bool-cases (i.i_count == 2)) [
    | inl w ↦ rw (read_pipe, e) (rw w (p, refl))
    | inr w ↦ rw (read_pipe, e) (rw w (p, refl))
  ]
]

same_Gives :
    (i j : Inode)
    → IsPipe j
    → contents j ≡ contents i
    → Gives i (record { inode = j; moved = []; returned = none; sigpipe = false })
same_Gives i j p c = (p, c ∙ sym (append-nil (contents i)))

write_loop-Gives :
    (bytes : List ℕ) (done : ℕ) (i : Inode) → IsPipe i → Gives i (write_loop bytes done i)
unfolding wake_up sleep_on IsPipe contents pipe_size write_loop
write_loop-Gives [] done i p = same_Gives i (wake_up i) p refl
write_loop-Gives (byte ∷ bytes) done i p = elim (Bool-cases (pipe_full i)) [
  | inr e ↦
      let (p', c) =
        write_loop-Gives bytes (suc done) (wake_up (put_byte byte i)) (put_byte-IsPipe byte i p) in
      rw (write_loop, e)
        (
          p',
          c
              ∙ ap
                  (λ (l : List ℕ).
                    l ++ (write_loop bytes (suc done) (wake_up (put_byte byte i))).moved)
                  (put_byte-contents byte i p e)
              ∙ append_assoc (contents i) (byte ∷ [])
                  (write_loop bytes (suc done) (wake_up (put_byte byte i))).moved,
        )
  | inl e ↦ elim (Bool-cases (i.i_count == 2)) [
    | inl w ↦ rw (write_loop, e) (rw w (same_Gives i i p refl))
    | inr w ↦ rw (write_loop, e) (rw w (same_Gives i i p refl))
  ]
]

write_pipe-Gives : (bytes : List ℕ) (i : Inode) → IsPipe i → Gives i (write_pipe bytes i)
unfolding wake_up IsPipe contents pipe_size write_pipe
write_pipe-Gives bytes i p = elim (Bool-cases (i.i_count == 2)) [
  | inl w ↦ rw (write_pipe, w) (write_loop-Gives bytes 0 (wake_up i) p)
  | inr w ↦ rw (write_pipe, w) (same_Gives i i p refl)
]

-- what was sent is what was received and what the pipe holds
pub IsQueue : System → Type 0
IsQueue s = IsPipe s.inode × (s.sent ≡ s.received ++ contents s.inode)

did_read-IsQueue : (r : Result) (s : System) → Takes s.inode r → IsQueue s → IsQueue (did_read r s)
unfolding did_read IsQueue
did_read-IsQueue r s (p', c) (p, q) =
    (p', q ∙ ap (◌++◌ s.received) c ∙ sym (append_assoc s.received r.moved (contents r.inode)))

did_write-IsQueue :
    (r : Result) (s : System) → Gives s.inode r → IsQueue s → IsQueue (did_write r s)
unfolding did_write IsQueue
did_write-IsQueue r s (p', c) (p, q) = (
  p',
  ap (λ (l : List ℕ). l ++ r.moved) q
      ∙ append_assoc s.received (contents s.inode) r.moved
      ∙ ap (◌++◌ s.received) (sym c),
)

go_on_with-IsQueue : (call : Call) (s : System) → IsQueue s → IsQueue (go_on_with call s)
unfolding go_on_with IsQueue
go_on_with-IsQueue (reading count) s q =
    did_read-IsQueue (read_pipe count s.inode) s (read_pipe-Takes count s.inode q.0) q
go_on_with-IsQueue (writing bytes done) s q =
    did_write-IsQueue (write_loop bytes done s.inode) s (write_loop-Gives bytes done s.inode q.0) q

handle-IsQueue : (e : Event) (s : System) → IsQueue s → IsQueue (handle e s)
unfolding handle IsQueue iput_pipe wake_up IsPipe contents pipe_size
handle-IsQueue (read count) s q =
    did_read-IsQueue (read_pipe count s.inode) s (read_pipe-Takes count s.inode q.0) q
handle-IsQueue (write bytes) s q =
    did_write-IsQueue (write_pipe bytes s.inode) s (write_pipe-Gives bytes s.inode q.0) q
handle-IsQueue close s q = elim (Bool-cases (s.inode.i_count == 0)) [
  | inl e ↦ rw (handle, e) q
  | inr e ↦ rw (handle, e) q
]
handle-IsQueue (go_on n) s q = elim (Option-cases (pick n s.inode.runnable)) [
  | inl e ↦ rw (handle, e) q
  | inr (found, e) ↦
      rw (handle, e)
        (go_on_with-IsQueue found.0.0
          (record s { inode = record s.inode { runnable = add_chain found.0.1 found.1 } }) q)
]

pub run-IsQueue : (es : List Event) (s : System) → IsQueue s → IsQueue (run es s)
unfolding run
run-IsQueue [] s q = q
run-IsQueue (e ∷ es) s q = run-IsQueue es (handle e s) (handle-IsQueue e s q)

-- A pipe is a queue. From a new pipe, whose page holds any garbage, let readers and writers call
-- `read_pipe` and `write_pipe`, sleep, wake and go on in any order, and let ends be closed: the bytes sent
-- are the bytes received, in order, and behind them the bytes that the pipe holds.
pub run-new_pipe :
    (garbage : List ℕ) (es : List Event)
    → length garbage ≡ 4096
    → (run es (new_pipe garbage)).sent
      ≡ (run es (new_pipe garbage)).received ++ contents (run es (new_pipe garbage)).inode
unfolding new_pipe get_pipe_inode IsQueue IsPipe contents stretch pipe_size
run-new_pipe garbage es l =
    (run-IsQueue es (new_pipe garbage) ((l, omega arith, omega arith), refl)).1
