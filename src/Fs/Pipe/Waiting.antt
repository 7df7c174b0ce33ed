-- ===== src/Fs/Pipe/Waiting.antt =====
-- fs/pipe.c: a call sleeps on a pipe only while it has to, so that the pipe never deadlocks.
use linux_0_01raf.Prelude.{
  ℕ, suc, ◌≡◌, inl, inr, true, List, [], ◌∷◌, arith, ◌==◌, Bool-cases, Option-cases,
}
use linux_0_01raf.Fs.Pipe.System.{
  System, Event, read, write, go_on, close, pick, did_read, did_write, go_on_with, handle, run,
}
use linux_0_01raf.Fs.Pipe.{
  Call, reading, writing, Inode, pipe_size, pipe_empty, pipe_full, add_chain, wake_up, sleep_on,
  read_pipe, write_loop, write_pipe, iput_pipe, put_byte,
}

-- A call has to wait: a reader of an empty pipe, a writer to a full one, while both ends are open.
pub IsBlocked : Inode → Call → Type 0
IsBlocked i (reading count) = (pipe_empty i ≡ true) × (i.i_count ≡ 2)
IsBlocked i (writing bytes done) = (pipe_full i ≡ true) × (i.i_count ≡ 2)

pub AllBlocked : Inode → List Call → Type 0
AllBlocked i [] = Unit
AllBlocked i (call ∷ calls) = IsBlocked i call × AllBlocked i calls

-- all that sleep on a pipe have to
pub Rests : Inode → Type 0
Rests i = AllBlocked i i.i_wait

read_pipe-Rests : (count : ℕ) (i : Inode) → Rests (read_pipe count i).inode
unfolding read_pipe wake_up sleep_on Rests AllBlocked IsBlocked pipe_empty
read_pipe-Rests count i = elim (Bool-cases (pipe_empty i)) [
  | inr e ↦ rw (read_pipe, e) tt
  | inl e ↦ elim (Bool-cases (i.i_count == 2)) [
    | inl w ↦ rw (read_pipe, e) (rw w ((e, ground arith), tt))
    | inr w ↦ rw (read_pipe, e) (rw w tt)
  ]
]

write_loop-Rests : (bytes : List ℕ) (done : ℕ) (i : Inode) → Rests (write_loop bytes done i).inode
unfolding write_loop wake_up sleep_on Rests AllBlocked IsBlocked pipe_full pipe_size
write_loop-Rests [] done i = tt
write_loop-Rests (byte ∷ bytes) done i = elim (Bool-cases (pipe_full i)) [
  | inr e ↦ rw (write_loop, e) (write_loop-Rests bytes (suc done) (wake_up (put_byte byte i)))
  | inl e ↦ elim (Bool-cases (i.i_count == 2)) [
    | inl w ↦ rw (write_loop, e) (rw w ((e, ground arith), tt))
    | inr w ↦ rw (write_loop, e) (rw w tt)
  ]
]

write_pipe-Rests : (bytes : List ℕ) (i : Inode) → Rests (write_pipe bytes i).inode
unfolding write_pipe wake_up Rests AllBlocked
write_pipe-Rests bytes i = elim (Bool-cases (i.i_count == 2)) [
  | inl w ↦ rw (write_pipe, w) (write_loop-Rests bytes 0 (wake_up i))
  | inr w ↦ rw (write_pipe, w) tt
]

go_on_with-Rests : (call : Call) (s : System) → Rests (go_on_with call s).inode
unfolding go_on_with did_read did_write
go_on_with-Rests (reading count) s = read_pipe-Rests count s.inode
go_on_with-Rests (writing bytes done) s = write_loop-Rests bytes done s.inode

handle-Rests : (e : Event) (s : System) → Rests s.inode → Rests (handle e s).inode
unfolding handle did_read did_write iput_pipe wake_up Rests AllBlocked
handle-Rests (read count) s h = read_pipe-Rests count s.inode
handle-Rests (write bytes) s h = write_pipe-Rests bytes s.inode
handle-Rests close s h = elim (Bool-cases (s.inode.i_count == 0)) [
  | inl e ↦ rw (handle, e) h
  | inr e ↦ rw (handle, e) tt
]
handle-Rests (go_on n) s h = elim (Option-cases (pick n s.inode.runnable)) [
  | inl e ↦ rw (handle, e) h
  | inr (found, e) ↦
      rw (handle, e)
        (go_on_with-Rests found.0.0
          (record s { inode = record s.inode { runnable = add_chain found.0.1 found.1 } }))
]

pub run-Rests : (es : List Event) (s : System) → Rests s.inode → Rests (run es s).inode
unfolding run
run-Rests [] s h = h
run-Rests (e ∷ es) s h = run-Rests es (handle e s) (handle-Rests e s h)
