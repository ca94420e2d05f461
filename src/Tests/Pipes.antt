-- ===== src/Tests/Pipes.antt =====
-- Pipes at concrete inputs.
use karte_os.Base.{List, [], ◌∷◌, ◌++◌, ◌≡◌, some, arith}
use karte_os.Base.Memory.{Memory}
use karte_os.Driver.Pipe
use karte_os.Driver.Pipe.{Pipe, read, write}
use karte_os.Driver.Pipe.Ring.{IsValid, contents, new-IsValid}
use karte_os.Driver.Pipe.Stream.{Call, reads, writes, close_writes, AllFit, run, run-stream}
use karte_os.Driver.PipeTable.{Refs, Tables, empty, close_read, close_write}
use karte_os.Driver.PipeTable.Counts.{
  IsConsistent, empty-IsConsistent, close-IsConsistent, put, put-IsConsistent,
}

-- User memory in which address `a` holds `a`.
abbrev counting : Memory
counting a = a

abbrev calls : List Call
calls =
    writes counting 70 3
    ∷ reads counting 500 2
    ∷ writes counting 80 1
    ∷ close_writes
    ∷ reads counting 600 9
    ∷ []

calls_fit : AllFit calls
calls_fit = (tt, (omega arith, (tt, (tt, (omega arith, tt)))))

run-stream_example :
    IsValid (run Pipe.new calls).0
    × (contents Pipe.new ++ (run Pipe.new calls).2
        ≡ (run Pipe.new calls).1 ++ contents (run Pipe.new calls).0)
run-stream_example = run-stream Pipe.new calls new-IsValid calls_fit

abbrev one_each : Refs
one_each = record { readers = 1; writers = 1 }

abbrev one_pipe : Tables
one_pipe = put empty 0 (some Pipe.new) one_each

one_pipe-IsConsistent : IsConsistent one_pipe
one_pipe-IsConsistent =
    put-IsConsistent empty 0 (some Pipe.new) one_each empty-IsConsistent (omega arith)
      (unfold Pipe.new in ground arith)

close-IsConsistent_example :
    IsConsistent (close_read one_pipe 0).0 × IsConsistent (close_write one_pipe 0).0
close-IsConsistent_example = close-IsConsistent one_pipe 0 one_pipe-IsConsistent (omega arith)
