-- ===== src/Kernel/Message/Quiet.antt =====
-- After `msg_init` no process waits for a message.
use os_porting.Base.{
  ℕ, zero, suc, ◌+◌, ◌≡◌, refl, Option, none, List, ◌==◌, get_or, replicate, inl, inr, Bool-cases,
}
use os_porting.Kernel.Message.{Post, MsgQueue, queue_total}
use os_porting.Kernel.Message.Calls.{init, queue_loop}
use os_porting.Kernel.Message.Living.{WaitersLive}

-- An array of NULL pointers.
abbrev NoOne : List (Option ℕ) → Type 0
NoOne slots = (i : ℕ) → get_or slots i none ≡ none

NoOne-nobody : NoOne (replicate 8 none)
NoOne-nobody i = none_of 8 i
  where
    none_of : (n i : ℕ) → get_or (replicate {A = Option ℕ} n none) i none ≡ none
    none_of zero i = refl
    none_of (suc n) zero = refl
    none_of (suc n) (suc i) = none_of n i

queue_loop-NoOne :
    (n i : ℕ) (queues : ℕ → MsgQueue)
    → ((p : ℕ) → NoOne (queues p).waiters.slots)
    → (p : ℕ) → NoOne (queue_loop n i queues p).waiters.slots
unfolding queue_loop
queue_loop-NoOne zero i queues nobody p = nobody p
queue_loop-NoOne (suc n) i queues nobody p =
    queue_loop-NoOne n (i + 1) _
      (λ q. elim (Bool-cases (q == i)) [
        | inl here ↦ rw here NoOne-nobody
        | inr apart ↦ rw apart (nobody q)
      ])
      p

-- After `msg_init` nobody waits, if no process waited in the arrays past the last queue.
pub init-WaitersLive :
    (m : Post)
    → ((p i : ℕ) → get_or (m.queues p).waiters.slots i none ≡ none)
    → WaitersLive (init m)
unfolding init
init-WaitersLive m nobody p i c e =
    let no_one = queue_loop-NoOne queue_total 0 m.queues nobody p i in absurd cc
