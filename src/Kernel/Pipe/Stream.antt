-- ===== src/Kernel/Pipe/Stream.antt =====
-- Any sequence of non-blocking calls moves a stream of bytes through the pipe.
use os_porting.Base.{
  ℕ, ◌≡◌, sym, ap, ◌∙◌, Bool, List, [], ◌∷◌, ◌++◌, append-nil, append_assoc, arith, min, take,
  take-append-drop,
}
use os_porting.Kernel.Pipe.{Scene, Status, bytes, fail, try_read, try_write}
use os_porting.Kernel.Pipe.Fifo.{contents}
use os_porting.Kernel.Pipe.Contract.{
  IsValid, read_available_lem, write_available_lem, try_read-IsValid, try_write-IsValid,
}

-- A call of `pipe_try_read` or of `pipe_try_write`, NULL arguments included.
pub data Call : Type 0 where
  reads : Bool → ℕ → Call
  writes : Bool → List ℕ → Call

-- The bytes of the source that a status says were taken.
abbrev pub accepted : Status → List ℕ → List ℕ
accepted (bytes k) src = take k src
accepted (fail e) src = []

pub record Trace : Type 0 where
  pub sent : List ℕ
  pub got : List ℕ
  pub last : Scene

-- The calls in order, with the bytes that they sent and got.
unfoldable pub run : List Call → Scene → Trace
run [] s = record { sent = []; got = []; last = s }
run (reads null n ∷ calls) s =
    let (r, xs, s') = try_read null n s in let t = run calls s' in record t { got = xs ++ t.got }
run (writes null src ∷ calls) s =
    let (r, s') = try_write null src s in
    let t = run calls s' in record t { sent = accepted r src ++ t.sent }

contents-try_read :
    (null : Bool) (n : ℕ) (s : Scene)
    → IsValid s.pipe
    → let (r, xs, s') = try_read null n s in contents s.pipe ≡ xs ++ contents s'.pipe
unfolding try_read
contents-try_read null n s v =
    ground
      (arith, read_available_lem n s v, take-append-drop (min n s.pipe.count) (contents s.pipe))

contents-try_write :
    (null : Bool) (src : List ℕ) (s : Scene)
    → IsValid s.pipe
    → let (r, s') = try_write null src s in contents s'.pipe ≡ contents s.pipe ++ accepted r src
unfolding try_write
contents-try_write null src s v =
    ground (arith, write_available_lem src s v, append-nil (contents s.pipe))

-- Whatever the calls, the bytes that were in the pipe and those sent come out in that order: first
-- the bytes got, then what the pipe holds at the end. Nothing is lost, doubled or reordered.
pub run_stream :
    (calls : List Call) (s : Scene)
    → IsValid s.pipe
    → let t = run calls s in
      (contents s.pipe ++ t.sent ≡ t.got ++ contents t.last.pipe) × IsValid t.last.pipe
unfolding run
run_stream [] s v = (append-nil (contents s.pipe), v)
run_stream (reads null n ∷ calls) s v =
    let (r, xs, s') = try_read null n s in
    let (ih, valid) = run_stream calls s' (try_read-IsValid null n s v) in
    (
      ap (λ c. c ++ (run calls s').sent) (contents-try_read null n s v)
          ∙ append_assoc xs (contents s'.pipe) (run calls s').sent
          ∙ ap (λ c. xs ++ c) ih
          ∙ sym (append_assoc xs (run calls s').got (contents (run calls s').last.pipe)),
      valid,
    )
run_stream (writes null src ∷ calls) s v =
    let (r, s') = try_write null src s in
    let (ih, valid) = run_stream calls s' (try_write-IsValid null src s v) in
    (
      sym (append_assoc (contents s.pipe) (accepted r src) (run calls s').sent)
          ∙ ap (λ c. c ++ (run calls s').sent) (sym (contents-try_write null src s v))
          ∙ ih,
      valid,
    )
