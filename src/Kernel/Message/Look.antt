-- ===== src/Kernel/Message/Look.antt =====
-- `msg_pending` and `msg_peek` against what a receiving call would take.
use os_porting.Base.{
  ℕ, ◌≡◌, ◌∙◌, refl, ap, arith, Bool, true, false, Option, none, some, List, [], ◌∷◌, ◌==◌, leb,
  length, take, inl, inr, Bool-cases, take-min, ◌<◌,
}
use os_porting.Kernel.Message.{Post, invalid_arg, no_process, queue_empty, queue_total}
use os_porting.Kernel.Message.Calls.{Peeked, seen, refused, peek, pending, peek_of, pending_of}
use os_porting.Kernel.Message.Mail.{Letter}
use os_porting.Kernel.Message.Holds.{Holds}
use os_porting.Kernel.Message.Steps.{unlink-Holds}
use os_porting.Kernel.Message.Contract.{count_lem}
use os_porting.Kernel.Message.Receive.{reader, reader_of}

-- The start of the front letter of a queue.
abbrev pub front_text : ℕ → List Letter → Peeked
front_text max_len [] = refused queue_empty
front_text max_len (x ∷ xs) = seen (take max_len x.text)

abbrev pub looks : Bool → Option ℕ → ℕ → (ℕ → List Letter) → Peeked
looks true q max_len mail = refused invalid_arg
looks false none max_len mail = refused no_process
looks false (some p) max_len mail = front_text max_len (mail p)

abbrev pub waiting_for : Option ℕ → (ℕ → List Letter) → ℕ
waiting_for none mail = 0
waiting_for (some p) mail = length (mail p)

peek_front :
    (c max_len : ℕ) (ls : List Letter) {m : Post} {spare : ℕ} {mail : ℕ → List Letter}
    → (m.table.pcb c).pid < queue_total
    → Holds m spare mail
    → mail (m.table.pcb c).pid ≡ ls
    → peek_of (some c) max_len m ≡ front_text max_len ls
peek_front c max_len [] {m} known h e =
    let inside : leb queue_total (m.table.pcb c).pid ≡ false = ground arith in
    let empty : ((m.queues (m.table.pcb c).pid).count == 0) ≡ true =
      ground (arith, count_lem (m.table.pcb c).pid known h, ap length e) in
    rw (inside, empty) refl
peek_front c max_len (x ∷ xs) {m} known h e =
    let p = (m.table.pcb c).pid in
    let inside : leb queue_total p ≡ false = ground arith in
    let more : ((m.queues p).count == 0) ≡ false =
      ground (arith, count_lem p known h, ap length e) in
    let (i, at, says, _) = unlink-Holds p known h e in
    rw (inside, more, at)
      (ap seen (
        take-min (m.pool i).length max_len (m.pool i).payload ∙ ap (λ y. take max_len y.text) says))

peek_by :
    (current : Option ℕ) (max_len : ℕ) {m : Post} {spare : ℕ} {mail : ℕ → List Letter}
    → Holds m spare mail
    → (peek_of current max_len m ≡ looks false (reader_of current m) max_len mail)
      × (pending_of current m ≡ waiting_for (reader_of current m) mail)
peek_by none max_len h = (refl, refl)
peek_by (some c) max_len {m} {spare} {mail} h =
    elim (Bool-cases (leb queue_total (m.table.pcb c).pid)) [
      | inl outside ↦ rw outside (refl, refl)
      | inr inside ↦
          let known : (m.table.pcb c).pid < queue_total = ground arith in
          let shown = peek_front c max_len (mail (m.table.pcb c).pid) known h refl in
          rw inside (rw inside at shown, count_lem (m.table.pcb c).pid known h)
    ]

-- `msg_peek` refuses a NULL buffer, a process without a queue and an empty queue, in this order,
-- and else gives the front letter's bytes, cut at the buffer's length, without following a NULL
-- head; `msg_pending` is the number of letters in the process's queue, or 0 if it has none.
pub peek-pending :
    (null : Bool) (max_len : ℕ) {m : Post} {spare : ℕ} {mail : ℕ → List Letter}
    → Holds m spare mail
    → (peek null max_len m ≡ looks null (reader m) max_len mail)
      × (pending m ≡ waiting_for (reader m) mail)
unfolding peek pending
peek-pending true max_len {m} h = (refl, (peek_by m.table.procs.current max_len h).1)
peek-pending false max_len {m} h = peek_by m.table.procs.current max_len h
