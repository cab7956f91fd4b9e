-- ===== src/Kernel/Message/Contract.antt =====
-- What sending and receiving do to the letters.
use os_porting.Base.{
  put, ℕ, suc, zero, ◌<◌, ◌≡◌, ◌∙◌, refl, sym, ap, ap₂, arith, Bool, true, false, Option, none,
  some, List, [], ◌∷◌, ◌++◌, ◌==◌, ltb, leb, if◌then◌else◌, length, take, inl, inr, Bool-cases,
  take-min,
}
use os_porting.Kernel.Process.Table.{Table, get_by_pid}
use os_porting.Kernel.Message.{
  Post, MsgError, is_missing, max_size, queue_size, queue_total, send_flags, send_node,
  alloc_message, Received, got, no_memory, invalid_pid, queue_full, too_large, invalid_arg, copied,
  take_message, unlink,
}
use os_porting.Kernel.Message.Chain.{Pool, Chain}
use os_porting.Kernel.Message.Mail.{Letter, letters}
use os_porting.Kernel.Message.Holds.{Holds}
use os_porting.Kernel.Message.Steps.{posted, deliver-Holds, unlink-Holds}

length-letters : (pool : Pool) (is : List ℕ) → length (letters pool is) ≡ length is
length-letters pool [] = refl
length-letters pool (i ∷ is) = ap suc (length-letters pool is)

pub count_lem :
    {m : Post} {spare : ℕ} {mail : ℕ → List Letter} (p : ℕ)
    → p < queue_total
    → Holds m spare mail
    → (m.queues p).count ≡ length (mail p)
count_lem {m} p known h =
    let l = h.queue p known in
    l.counted ∙ sym (length-letters m.pool (h.lines p)) ∙ ap length l.held

alloc-nil : {m : Post} {mail : ℕ → List Letter} → Holds m 0 mail → alloc_message m ≡ (none, m)
unfolding alloc_message Chain
alloc-nil {m} h = nothing h.free h.spares h.free_linked
  where
    nothing :
        (is : List ℕ)
        → length is ≡ 0
        → Chain m.pool m.free_messages is
        → alloc_message m ≡ (none, m)
    nothing [] e c = rw c refl
    nothing (i ∷ is) e c = absurd (omega arith)

-- Why `msg_send_flags` refuses, if it does.
abbrev pub verdict : Bool → ℕ → List ℕ → Table → ℕ → (ℕ → List Letter) → Option MsgError
verdict null dest text t spare mail =
    if null
    then some invalid_arg
    else if ltb max_size (length text)
    then some too_large
    else if is_missing (get_by_pid dest t)
    then some invalid_pid
    else if leb queue_total dest
    then some invalid_pid
    else if leb queue_size (length (mail dest))
    then some queue_full
    else if spare == 0
    then some no_memory
    else none

-- What a call that sends the letter `x` leaves: the letter behind the others, or nothing changed.
abbrev pub Sent : Option MsgError → ℕ → Letter → ℕ → (ℕ → List Letter) → Post → Post → Type 0
Sent none dest x spare mail m m' =
    (left : ℕ) × (spare ≡ suc left) × Holds m' left (put mail dest (mail dest ++ x ∷ []))
Sent (some e) dest x spare mail m m' = m' ≡ m

send_node-Sent :
    (dest : ℕ) (text : List ℕ) (flags spare : ℕ) {m : Post} {mail : ℕ → List Letter}
    → dest < queue_total
    → Holds m spare mail
    → let (r, m') = send_node dest text flags (alloc_message m) in
      let v = if spare == 0 then some no_memory else none in
      (r ≡ v) × Sent v dest (posted dest text flags m) spare mail m m'
send_node-Sent dest text flags zero known h = rw (alloc-nil h) (refl, refl)
send_node-Sent dest text flags (suc spare) {m} {mail} known h =
    let (i, e, sent) = deliver-Holds dest text flags known h in
    let test : (suc spare == 0) ≡ false = ground arith in rw (e, test) (refl, (spare, refl, sent))

-- `msg_send_flags` refuses exactly for the first of its reasons that holds, and then changes nothing;
-- else the letter, with the sender's PID, the flags, the next message ID and the bytes, stands behind
-- the others of the destination, a node less is free, and every other queue holds what it held.
pub send_flags-Sent :
    (null : Bool) (dest : ℕ) (text : List ℕ) (flags : ℕ) {m : Post} {spare : ℕ}
    {mail : ℕ → List Letter}
    → Holds m spare mail
    → let (r, m') = send_flags null dest text flags m in
      let v = verdict null dest text m.table spare mail in
      (r ≡ v) × Sent v dest (posted dest text flags m) spare mail m m'
unfolding send_flags
send_flags-Sent true dest text flags h = (refl, refl)
send_flags-Sent false dest text flags {m} {spare} {mail} h =
    elim (Bool-cases (ltb max_size (length text))) [
      | inl large ↦ rw large (refl, refl)
      | inr fits ↦ elim (Bool-cases (is_missing (get_by_pid dest m.table))) [
        | inl gone ↦ rw (fits, gone) (refl, refl)
        | inr there ↦ elim (Bool-cases (leb queue_total dest)) [
          | inl outside ↦ rw (fits, there, outside) (refl, refl)
          | inr inside ↦
              let known : dest < queue_total = ground arith in
              elim (Bool-cases (leb queue_size (length (mail dest)))) [
                | inl full ↦ rw (fits, there, inside, count_lem dest known h, full) (refl, refl)
                | inr room ↦
                    rw (fits, there, inside, count_lem dest known h, room)
                      (send_node-Sent dest text flags spare known h)
              ]
        ]
      ]
    ]

-- The letter at the front is copied out, cut at the buffer's length.
abbrev pub Taken : ℕ → ℕ → ℕ → (ℕ → List Letter) → Letter → List Letter → Received → Type 0
Taken p max_len spare mail x xs r =
    (m' : Post) × (r ≡ got (take max_len x.text) x.src m') × Holds m' (suc spare) (put mail p xs)

pub take_message-Taken :
    (p max_len : ℕ) {m : Post} {spare : ℕ} {mail : ℕ → List Letter} {x : Letter} {xs : List Letter}
    → p < queue_total
    → Holds m spare mail
    → mail p ≡ x ∷ xs
    → Taken p max_len spare mail x xs (take_message p max_len m)
unfolding take_message
take_message-Taken p max_len {m} {spare} {mail} {x} {xs} known h e =
    let (i, at, says, left) = unlink-Holds p known h e in
    let bytes : copied max_len (m.pool i) ≡ take max_len x.text =
      take-min (m.pool i).length max_len (m.pool i).payload ∙ ap (λ y. take max_len y.text) says in
    rw at (unlink p i m, ap₂ (λ b s. got b s (unlink p i m)) bytes (ap (λ y. y.src) says), left)
