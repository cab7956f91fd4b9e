-- ===== src/Kernel/Pipe/Fifo.antt =====
-- The circular buffer of a pipe holds a queue of bytes, oldest first.
use os_porting.Base.{ℕ, ◌+◌, ◌-◌, ◌%◌, ◌≤◌, ◌<◌, ◌≡◌, ap, ◌∙◌, List, ◌++◌, arith, length}
use os_porting.Base.Circular.{window, length-window, window-add, fetch_lem, store_lem}
use os_porting.Kernel.Pipe.{Pipe, buffer_size, take_out, put_in}

pub record IsRing (p : Pipe) : Type 0 where
  pub sized : length p.buffer ≡ buffer_size
  pub read_in : p.read_pos < buffer_size
  pub write_at : p.write_pos ≡ (p.read_pos + p.count) % buffer_size
  pub bounded : p.count ≤ buffer_size

abbrev pub contents : Pipe → List ℕ
contents p = window buffer_size 0 p.buffer p.read_pos p.count

pub length-contents : (p : Pipe) → length (contents p) ≡ p.count
length-contents p = length-window buffer_size 0 p.buffer p.read_pos p.count

take_out-eq :
    (n : ℕ) (p : Pipe)
    → IsRing p
    → take_out n p ≡ (
      window buffer_size 0 p.buffer p.read_pos n,
      record p { read_pos = (p.read_pos + n) % buffer_size; count = p.count - n },
    )
unfolding take_out
take_out-eq n p v =
    ap (λ (r : List ℕ × ℕ). (r.0, record p { read_pos = r.1; count = p.count - n }))
      (fetch_lem buffer_size 0 n p.buffer p.read_pos v.read_in)

-- Taking `n` bytes out splits the queue after its first `n` bytes.
pub contents-take_out :
    (n : ℕ) {p : Pipe}
    → IsRing p
    → n ≤ p.count
    → let (xs, p') = take_out n p in (contents p ≡ xs ++ contents p') × (length xs ≡ n) × IsRing p'
contents-take_out n {p} v h = rw (take_out-eq n p v) (
  ap (window buffer_size 0 p.buffer p.read_pos) (omega arith)
      ∙ window-add buffer_size 0 p.buffer p.read_pos n (p.count - n) v.read_in,
  length-window buffer_size 0 p.buffer p.read_pos n,
  omega arith,
)

-- Bytes that fit are put at the end of the queue.
pub contents-put_in :
    (xs : List ℕ) {p : Pipe}
    → IsRing p
    → p.count + length xs ≤ buffer_size
    → (contents (put_in xs p) ≡ contents p ++ xs) × IsRing (put_in xs p)
unfolding put_in
contents-put_in xs {p} v h =
    let (held, end, same) =
      store_lem buffer_size 0 xs p.buffer p.read_pos p.count p.write_pos (omega (arith, v.sized))
        v.read_in h v.write_at in
    (held, record { sized = same ∙ v.sized; read_in = v.read_in; write_at = end; bounded = h })
