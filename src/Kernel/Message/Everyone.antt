-- ===== src/Kernel/Message/Everyone.antt =====
-- `msg_broadcast`.
use os_porting.Base.{
  put, ℕ, suc, zero, ◌+◌, ◌-◌, ◌<◌, ◌≤◌, ◌≢◌, leb, sym, if◌then◌else◌, ◌≡◌, ◌∙◌, ◌⊎◌, refl, subst,
  arith, Bool, true, false, Option, none, some, List, [], ◌∷◌, ◌++◌, ◌==◌, ltb, ◌||◌, length, inl,
  inr, Bool-cases,
}
use os_porting.Kernel.Process.Table.{get_by_pid}
use os_porting.Kernel.Message.{
  Post, MsgError, is_missing, queue_size, no_memory, queue_full, send_flags, flag_broadcast,
  max_size, queue_total, current_pid,
}
use os_porting.Kernel.Message.Calls.{broadcast, broadcast_loop, count_success, is_alive}
use os_porting.Kernel.Message.Mail.{Letter}
use os_porting.Kernel.Message.Holds.{Holds}
use os_porting.Kernel.Message.Steps.{posted}
use os_porting.Kernel.Message.Living.{
  Keeps, Keeps-after, WaitersLive, has_receiver, has_receiver-Keeps, send_flags-Keeps,
}
use os_porting.Kernel.Message.Contract.{send_flags-Sent, verdict, Sent}
use os_porting.Kernel.Message.Spread.{Fate, Spread, Spread-sent, Spread-skip}

-- What the loop does from a PID on, in a state in which the same processes live as at its start.
abbrev Spreads : Post → ℕ → List ℕ → ℕ → ℕ → Type 0
Spreads start src text k pid =
    (n : ℕ) (m : Post) (spare : ℕ) (mail : ℕ → List Letter)
    → Holds m spare mail
    → Keeps start m
    → Spread start src text k pid n spare mail (broadcast_loop k pid src text n m)

-- The verdict on a letter that fits, for a process that lives.
short_verdict :
    (text : List ℕ) (pid : ℕ) (m : Post) (spare : ℕ) (mail : ℕ → List Letter)
    → length text ≤ max_size
    → pid < queue_total
    → has_receiver pid m ≡ true
    → verdict false pid text m.table spare mail ≡ (
        if leb queue_size (length (mail pid))
        then some queue_full
        else if spare == 0
        then some no_memory
        else none)
short_verdict text pid m spare mail fits known alive =
    let small : ltb max_size (length text) ≡ false = ground arith in
    let inside : leb queue_total pid ≡ false = ground arith in
    rw (small, inside, there (get_by_pid pid m.table) alive) refl
  where
    there : (o : Option ℕ) → is_alive o m.table ≡ true → is_missing o ≡ false
    there none e = absurd cc
    there (some c) e = refl

-- A call to `msg_send_flags` for a process that lives.
after_send :
    (start : Post) (src : ℕ) (text : List ℕ) (k pid n : ℕ) (m : Post) (spare : ℕ)
    (mail : ℕ → List Letter) (x : Letter) (r : Option MsgError × Post) (full : Bool)
    → leb queue_size (length (mail pid)) ≡ full
    → Spreads start src text k (pid + 1)
    → x.text ≡ text
    → x.flags ≡ flag_broadcast
    → pid ≢ src
    → has_receiver pid start ≡ true
    → Holds m spare mail
    → Keeps start r.1
    → let v = if full then some queue_full else if spare == 0 then some no_memory else none in
      (r.0 ≡ v) × Sent v pid x spare mail m r.1
      → Spread start src text
          (suc k)
          pid
          n
          spare
          mail
          (broadcast_loop k (pid + 1) src text (count_success r.0 n) r.1)
after_send start src text k pid n m spare mail x r true full go same_text same_flags other alive h
      keeps (e, same) =
    let again = subst (λ o. Holds o spare mail) (sym same) h in
    rw e (
      Spread-skip start src text k pid n spare _ (λ left le. inr (inr (inl (ground arith))))
        (go n r.1 spare mail again keeps))
after_send start src text k pid n m zero mail x r false room go same_text same_flags other alive h
      keeps (e, same) =
    let again = subst (λ o. Holds o zero mail) (sym same) h in
    rw e (
      Spread-skip start src text k pid n zero _ (λ left le. inr (inr (inr (omega arith))))
        (go n r.1 zero mail again keeps))
after_send start src text k pid n m (suc spare) mail x r false room go same_text same_flags other
      alive h keeps sent =
    let some_left : (suc spare == 0) ≡ false = ground arith in
    let (e, (left, s, held)) =
      subst
        (λ none_left.
          let v = if none_left then some no_memory else none in
          (r.0 ≡ v) × Sent v pid x (suc spare) mail m r.1)
        some_left sent in
    let same_left : left ≡ spare = omega (arith, s) in
    rw e (
      Spread-sent start src text k pid n spare _ x same_text same_flags other alive (ground arith) (
        go (n + 1) r.1 spare (put mail pid (mail pid ++ x ∷ []))
          (subst (λ l. Holds r.1 l (put mail pid (mail pid ++ x ∷ []))) same_left held) keeps))

broadcast_loop-Spread :
    (start : Post) (src : ℕ) (text : List ℕ) (k pid : ℕ)
    → length text ≤ max_size
    → pid + k ≤ queue_total
    → Spreads start src text k pid
unfolding broadcast_loop
broadcast_loop-Spread start src text zero pid fits known n m spare mail h keeps = record {
  left = spare;
  after = mail;
  taken = refl;
  more = omega arith;
  holds = h;
  outside = λ p out. refl;
  each = λ p low high. absurd (omega arith);
}
broadcast_loop-Spread start src text (suc k) pid fits known n m spare mail h keeps =
    let go = broadcast_loop-Spread start src text k (pid + 1) fits (omega arith) in
    let same = has_receiver-Keeps pid keeps in
    elim (Bool-cases (pid == src)) [
      | inl own ↦ rw own (
          Spread-skip start src text k pid n spare _ (λ left le. inl (ground arith))
            (go n m spare mail h keeps))
      | inr other ↦ elim (Bool-cases (has_receiver pid m)) [
        | inr dead ↦
            rw (other, dead)
              (Spread-skip start src text k pid n spare _ (λ left le. inr (inl (sym same ∙ dead)))
                (go n m spare mail h keeps))
        | inl alive ↦
            let sent =
              subst
                (λ v.
                  ((send_flags false pid text flag_broadcast m).0 ≡ v)
                  × Sent v pid (posted pid text flag_broadcast m) spare mail m
                      (send_flags false pid text flag_broadcast m).1)
                (short_verdict text pid m spare mail fits (omega arith) alive)
                (send_flags-Sent false pid text flag_broadcast h) in
            let kept =
              Keeps-after keeps (send_flags-Keeps false pid text flag_broadcast m keeps.waiters) in
            rw (other, alive)
              (after_send start src text k pid n m spare mail (posted pid text flag_broadcast m)
                (send_flags false pid text flag_broadcast m) (leb queue_size (length (mail pid)))
                refl go refl refl (λ e. ground arith) (sym same ∙ alive) h kept sent)
      ]
    ]

-- The outcome of a broadcast by the process with PID `src`.
abbrev pub Reaches : Bool → List ℕ → ℕ → (ℕ → List Letter) → Post → Option ℕ × Post → Type 0
Reaches refuses text spare mail m (none, m') = (refuses ≡ true) × (m' ≡ m)
Reaches refuses text spare mail m (some n, m') =
    (refuses ≡ false)
    × (left : ℕ) × (after : ℕ → List Letter) × (left + n ≡ spare)
    × Holds m' left after
    × ((p : ℕ) → 0 < p → p < queue_total → Fate m (current_pid m) text p (mail p) (after p) left)
    × ((p : ℕ) → (p ≡ 0) ⊎ (queue_total ≤ p) → after p ≡ mail p)

-- `msg_broadcast`, when no dead process waits for a message, refuses a NULL or an oversized
-- message with nothing changed. Else, for each PID from 1 to 255, the queue holds the message
-- behind what it held, marked as broadcast, if the PID is of a process alive other than the
-- sender and the queue has room; it holds what it held only if the PID is the sender's or of no
-- process alive, its queue is full, or no node is left. The queue of PID 0 is as it was, and as
-- many nodes as the call answers have left the free list.
pub broadcast-Reaches :
    (null : Bool) (text : List ℕ) {m : Post} {spare : ℕ} {mail : ℕ → List Letter}
    → Holds m spare mail
    → WaitersLive m
    → Reaches (null || ltb max_size (length text)) text spare mail m (broadcast null text m)
unfolding broadcast
broadcast-Reaches null text {m} {spare} {mail} h live =
    elim (Bool-cases (null || ltb max_size (length text))) [
      | inl bad ↦ rw bad (refl, refl)
      | inr fine ↦
          let s =
            broadcast_loop-Spread m (current_pid m) text (queue_total - 1) 1 (ground arith)
              (omega arith) 0 m spare mail h
              (record { states = λ i. (refl, refl); pcbs = refl; waiters = live }) in
          rw fine (
            refl,
            s.left,
            s.after,
            s.taken ∙ omega arith,
            s.holds,
            λ p low high. s.each p low (omega arith),
            λ p out. s.outside p (ground arith),
          )
    ]
