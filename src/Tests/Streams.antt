-- ===== src/Tests/Streams.antt =====
-- The token pipe and the log ring at concrete inputs.
use karte_os.Base.{List, [], ◌∷◌, ◌≡◌, arith}
use karte_os.Ipc.TokenPipe
use karte_os.Ipc.TokenPipe.Ring
use karte_os.Ipc.TokenPipe.Stream as Tokens
use karte_os.Ipc.TokenPipe.Stream.{queue, Fits, run_queue, run-run_queue}
use karte_os.Ipc.KernelLog
use karte_os.Ipc.KernelLog.Stream as Bytes
use karte_os.Ipc.KernelLog.Stream.{contents, run_bytes, run-run_bytes}

abbrev token_calls : List Tokens.Call
token_calls =
    Tokens.pushes (1 ∷ 2 ∷ []) ∷ Tokens.pushes (3 ∷ []) ∷ Tokens.consumes 1 ∷ Tokens.pushes [] ∷ []

token_calls-Fits : Fits (queue TokenPipe.new) token_calls
unfolding TokenPipe.new TokenPipe.len
token_calls-Fits = (omega arith, tt)

run-run_queue_example :
    Ring.IsValid (Tokens.run TokenPipe.new token_calls)
    × (queue (Tokens.run TokenPipe.new token_calls) ≡ run_queue (queue TokenPipe.new) token_calls)
run-run_queue_example = run-run_queue TokenPipe.new token_calls Ring.new-IsValid token_calls-Fits

abbrev byte_calls : List Bytes.Call
byte_calls = Bytes.writes 75 ∷ Bytes.writes 79 ∷ Bytes.reads 1 ∷ Bytes.writes 83 ∷ Bytes.clears ∷ []

run-run_bytes_example :
    Bytes.IsValid (Bytes.run KernelLog.new byte_calls).1
    × (((Bytes.run KernelLog.new byte_calls).0, contents (Bytes.run KernelLog.new byte_calls).1)
        ≡ run_bytes (contents KernelLog.new) byte_calls)
run-run_bytes_example = run-run_bytes KernelLog.new byte_calls Bytes.new-IsValid
