-- ===== src/Examples/Pipes.antt =====
-- fs/pipe.c: the theorems at a concrete run of a pipe.
use linux_0_01raf.Prelude.{ℕ, ◌≡◌, ◌++◌, List, [], ◌∷◌, replicate, length-replicate}
use linux_0_01raf.Fs.Pipe.{contents}
use linux_0_01raf.Fs.Pipe.System.{Event, read, write, go_on, run, new_pipe}
use linux_0_01raf.Fs.Pipe.Fifo.{run-new_pipe}

abbrev garbage : List ℕ
garbage = replicate 4096 77

-- a reader sleeps, three bytes are written, the reader goes on with two, another sleeps after the rest
abbrev traffic : List Event
traffic = read 2 ∷ write (5 ∷ 6 ∷ 7 ∷ []) ∷ go_on 0 ∷ read 9 ∷ read 1 ∷ []

run-new_pipe_example :
    (run traffic (new_pipe garbage)).sent
    ≡ (run traffic (new_pipe garbage)).received ++ contents (run traffic (new_pipe garbage)).inode
run-new_pipe_example = run-new_pipe garbage traffic (length-replicate {A = ℕ} 4096 77)
