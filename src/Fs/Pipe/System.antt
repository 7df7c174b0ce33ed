-- ===== src/Fs/Pipe/System.antt =====
-- fs/pipe.c: a pipe and the calls on it, made and gone on with in any order.
use linux_0_01raf.Prelude.{
  ◌==◌, if◌then◌else◌, ℕ, zero, suc, Option, none, some, List, [], ◌∷◌, ◌++◌,
}
use mathlib.Core.Option
use linux_0_01raf.Fs.Pipe.{
  add_chain, Call, reading, writing, Inode, Result, read_pipe, write_loop, write_pipe, iput_pipe,
  get_pipe_inode,
}

-- `received` is all that readers took, `sent` all that writers put in, in the order of the calls' steps
pub record System : Type 0 where
  pub inode : Inode
  pub sent : List ℕ
  pub received : List ℕ

-- `close` closes an end that is open: `iput` panics on an inode that is not in use. `go_on n` lets the `n`-th woken call return from `sleep_on`
pub data Event : Type 0 where
  read : ℕ → Event
  write : List ℕ → Event
  go_on : ℕ → Event
  close : Event

-- the `n`-th of the chains and the others
unfoldable pub pick :
    ℕ → List (Call × List Call) → Option ((Call × List Call) × List (Call × List Call))
pick n [] = none
pick zero (chain ∷ chains) = some (chain, chains)
pick (suc n) (chain ∷ chains) = Option.map (λ found. (found.0, chain ∷ found.1)) (pick n chains)

unfoldable pub did_read : Result → System → System
did_read r s = record s { inode = r.inode; received = s.received ++ r.moved }

unfoldable pub did_write : Result → System → System
did_write r s = record s { inode = r.inode; sent = s.sent ++ r.moved }

unfoldable pub go_on_with : Call → System → System
go_on_with (reading count) s = did_read (read_pipe count s.inode) s
go_on_with (writing bytes done) s = did_write (write_loop bytes done s.inode) s

unfoldable pub handle : Event → System → System
handle (read count) s = did_read (read_pipe count s.inode) s
handle (write bytes) s = did_write (write_pipe bytes s.inode) s
handle (go_on n) s = elim (pick n s.inode.runnable) [
  | none ↦ s
  | some ((call, sleeping), others) ↦
      -- the end of sleep_on: if (tmp) tmp->state=0
      go_on_with call (record s { inode = record s.inode { runnable = add_chain sleeping others } })
]
handle close s = if s.inode.i_count == 0 then s else record s { inode = iput_pipe s.inode }

unfoldable pub run : List Event → System → System
run [] s = s
run (e ∷ es) s = run es (handle e s)

unfoldable pub new_pipe : List ℕ → System
new_pipe garbage = record { inode = get_pipe_inode garbage; sent = []; received = [] }
