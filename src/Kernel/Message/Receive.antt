-- ===== src/Kernel/Message/Receive.antt =====
-- The receiving calls.
use os_porting.Base.{
  put, ℕ, suc, ◌<◌, ◌≡◌, ◌≢◌, ◌∙◌, refl, sym, ap, subst, arith, Bool, true, false, Option, none,
  some, List, [], ◌∷◌, ◌==◌, leb, if◌then◌else◌, length, take, inl, inr, Bool-cases,
}
use os_porting.Kernel.Message.{
  Post, queue_total, Received, got, refused, asleep, fault, invalid_arg, no_process, would_block,
  take_message, wait_message, receive_as, receive_internal, receive, try_receive, block_receiver,
}
use os_porting.Kernel.Message.Mail.{Letter}
use os_porting.Kernel.Message.Holds.{Holds, block_receiver-Holds}
use os_porting.Kernel.Message.Contract.{Taken, take_message-Taken, count_lem}

-- The PID of the current process, if there is one and it has a queue.
abbrev pub reader_of : Option ℕ → Post → Option ℕ
reader_of none m = none
reader_of (some c) m =
    if leb queue_total (m.table.pcb c).pid then none else some (m.table.pcb c).pid

abbrev pub reader : Post → Option ℕ
reader m = reader_of m.table.procs.current m

abbrev pub Front : List Letter → ℕ → ℕ → ℕ → (ℕ → List Letter) → Post → Received → Type 0
Front [] p max_len spare mail m r = r ≡ refused would_block m
Front (x ∷ xs) p max_len spare mail m r = Taken p max_len spare mail x xs r

-- The outcome of a call that does not wait.
abbrev pub Tried : Bool → Option ℕ → ℕ → ℕ → (ℕ → List Letter) → Post → Received → Type 0
Tried true q max_len spare mail m r = r ≡ refused invalid_arg m
Tried false none max_len spare mail m r = r ≡ refused no_process m
Tried false (some p) max_len spare mail m r = Front (mail p) p max_len spare mail m r

wait_message-Front :
    (ls : List Letter) (p max_len : ℕ) {m : Post} {spare : ℕ} {mail : ℕ → List Letter}
    → p < queue_total
    → Holds m spare mail
    → mail p ≡ ls
    → Front ls p max_len spare mail m (wait_message [] false p max_len m)
unfolding wait_message
wait_message-Front [] p max_len {m} {spare} {mail} known h e =
    let empty : ((m.queues p).count == 0) ≡ true =
      ground (arith, count_lem p known h, ap length e) in
    rw empty refl
wait_message-Front (x ∷ xs) p max_len {m} {spare} {mail} known h e =
    let more : ((m.queues p).count == 0) ≡ false =
      ground (arith, count_lem p known h, ap length e) in
    rw more (take_message-Taken p max_len known h e)

receive_as-Tried :
    (current : Option ℕ) (max_len : ℕ) {m : Post} {spare : ℕ} {mail : ℕ → List Letter}
    → Holds m spare mail
    → Tried false (reader_of current m) max_len spare mail m (receive_as current [] false max_len m)
receive_as-Tried none max_len h = refl
receive_as-Tried (some c) max_len {m} {spare} {mail} h =
    elim (Bool-cases (leb queue_total (m.table.pcb c).pid)) [
      | inl outside ↦ rw outside refl
      | inr inside ↦ rw inside (
          wait_message-Front (mail (m.table.pcb c).pid) (m.table.pcb c).pid max_len (ground arith) h
            refl)
    ]

-- `msg_try_receive` and `msg_try_receive_from` of the current process: NULL buffers and processes
-- without a queue are refused, an empty queue would block, each with nothing changed; else the
-- front letter is taken, with its bytes cut at the buffer's length and its sender, its node is
-- free again, and every other queue holds what it held.
pub try_receive-Tried :
    (null : Bool) (max_len : ℕ) {m : Post} {spare : ℕ} {mail : ℕ → List Letter}
    → Holds m spare mail
    → Tried null (reader m) max_len spare mail m (try_receive null max_len m)
unfolding try_receive receive_internal
try_receive-Tried true max_len h = refl
try_receive-Tried false max_len {m} h = receive_as-Tried m.table.procs.current max_len h

-- What others do to the state keeps it in order.
abbrev pub Keeps : (Post → Post) → Type 0
Keeps other =
    (m : Post) (spare : ℕ) (mail : ℕ → List Letter)
    → Holds m spare mail
    → (spare' : ℕ) × (mail' : ℕ → List Letter) × Holds (other m) spare' mail'

abbrev pub AllKeep : List (Post → Post) → Type 0
AllKeep [] = Unit
AllKeep (other ∷ others) = Keeps other × AllKeep others

-- The states that a process waiting on queue `p` goes through: as long as the queue is empty it
-- blocks, and others act. The two lists are what the others still do, before and after.
pub data Waits (p : ℕ) : List (Post → Post) → List (Post → Post) → Post → Post → Type 0 where
  here : {others : List (Post → Post)} {m : Post} → Waits p others others m m
  blocked :
      {other : Post → Post} {others rest : List (Post → Post)} {m m₀ : Post}
      → (m.queues p).count ≡ 0
      → Waits p others rest (other (block_receiver p m)) m₀
      → Waits p (other ∷ others) rest m m₀

-- The front letter of queue `p` of the state `m₀` is taken.
abbrev pub TookFront : ℕ → ℕ → Post → List ℕ → ℕ → Post → Type 0
TookFront p max_len m₀ bytes src m' =
    (spare : ℕ) × (mail : ℕ → List Letter) × (x : Letter) × (xs : List Letter) × Holds m₀ spare mail
    × (mail p ≡ x ∷ xs)
    × (bytes ≡ take max_len x.text)
    × (src ≡ x.src)
    × Holds m' (suc spare) (put mail p xs)

-- The outcome of a call that waits.
abbrev pub Waited : ℕ → ℕ → List (Post → Post) → Post → Received → Type 0
Waited p max_len others m (got bytes src m') =
    (m₀ : Post) × (rest : List (Post → Post)) × Waits p others rest m m₀
    × TookFront p max_len m₀ bytes src m'
Waited p max_len others m (refused e m') = ⊥
Waited p max_len others m (asleep m') =
    (m₀ : Post) × Waits p others [] m m₀
    × ((m₀.queues p).count ≡ 0)
    × (m' ≡ block_receiver p m₀)
    × (spare : ℕ) × (mail : ℕ → List Letter) × Holds m' spare mail
Waited p max_len others m fault = ⊥

Waited-blocked :
    (p max_len : ℕ) (other : Post → Post) (others : List (Post → Post)) (m : Post) (r : Received)
    → (m.queues p).count ≡ 0
    → Waited p max_len others (other (block_receiver p m)) r
    → Waited p max_len (other ∷ others) m r
Waited-blocked p max_len other others m (refused e m') empty never = elim never [ ]
Waited-blocked p max_len other others m fault empty never = elim never [ ]
Waited-blocked p max_len other others m (got bytes src m') empty (m₀, rest, waits, took) =
    (m₀, rest, blocked empty waits, took)
Waited-blocked p max_len other others m (asleep m') empty
      (m₀, waits, none_left, same, spare, mail, held) =
    (m₀, blocked empty waits, none_left, same, spare, mail, held)

take_message-Waited :
    (others : List (Post → Post)) (p max_len : ℕ) {m : Post} {spare : ℕ} (mail : ℕ → List Letter)
    (ls : List Letter)
    → p < queue_total
    → Holds m spare mail
    → mail p ≡ ls
    → (m.queues p).count ≢ 0
    → Waited p max_len others m (take_message p max_len m)
take_message-Waited others p max_len mail [] known h e some_left =
    absurd (some_left (count_lem p known h ∙ ap length e))
take_message-Waited others p max_len {m} {spare} mail (x ∷ xs) known h e some_left =
    let (m', r, left) = take_message-Taken p max_len known h e in
    rw r (m, others, here, (spare, mail, x, xs, h, e, refl, refl, left))

wait_message-Waited :
    (others : List (Post → Post)) (p max_len : ℕ) {m : Post} {spare : ℕ} {mail : ℕ → List Letter}
    → p < queue_total
    → AllKeep others
    → Holds m spare mail
    → Waited p max_len others m (wait_message others true p max_len m)
unfolding wait_message
wait_message-Waited [] p max_len {m} {spare} {mail} known keep h =
    elim (Bool-cases ((m.queues p).count == 0)) [
      | inl empty ↦ rw empty (m, here, ground arith, refl, spare, mail, block_receiver-Holds p h)
      | inr more ↦
          rw more (take_message-Waited [] p max_len mail (mail p) known h refl (ground arith))
    ]
wait_message-Waited (other ∷ others) p max_len {m} {spare} {mail} known (keeps, keep) h =
    elim (Bool-cases ((m.queues p).count == 0)) [
      | inl empty ↦
          let (_, _, h') = keeps (block_receiver p m) spare mail (block_receiver-Holds p h) in
          let rest = wait_message others true p max_len (other (block_receiver p m)) in
          rw empty (
            Waited-blocked p max_len other others m rest (ground arith)
              (wait_message-Waited others p max_len known keep h'))
      | inr more ↦
          rw more (
            take_message-Waited (other ∷ others) p max_len mail (mail p) known h refl
              (ground arith))
    ]

-- `msg_receive` and `msg_receive_from` of a process with a queue, while others keep the state in
-- order: the call is not refused and never follows a NULL head. It goes through states in which it
-- blocks on its empty queue and others act, and in the first one with a letter it takes the front
-- letter of that state's queue, cut at the buffer's length, with its sender, its node free again and
-- every other queue as in that state; or the others' steps end with its queue still empty and it
-- sleeps, with the state in order.
pub receive-Waited :
    (others : List (Post → Post)) (max_len c : ℕ) {m : Post} {spare : ℕ} {mail : ℕ → List Letter}
    → m.table.procs.current ≡ some c
    → (m.table.pcb c).pid < queue_total
    → AllKeep others
    → Holds m spare mail
    → Waited (m.table.pcb c).pid max_len others m (receive others false max_len m)
unfolding receive receive_internal
receive-Waited others max_len c {m} now known keep h =
    let inside : leb queue_total (m.table.pcb c).pid ≡ false = ground arith in
    subst (λ r. Waited (m.table.pcb c).pid max_len others m (receive_as r others true max_len m))
      (sym now) (rw inside (wait_message-Waited others (m.table.pcb c).pid max_len known keep h))
