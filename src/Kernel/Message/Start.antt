-- ===== src/Kernel/Message/Start.antt =====
-- The state that `msg_init` leaves.
use os_porting.Base.{
  put, put_self, put-other, ℕ, suc, zero, ◌+◌, ◌<◌, ◌≤◌, ◌≡◌, ◌∙◌, refl, sym, subst, arith, Option,
  none, some, List, [], ◌∷◌, ◌==◌, length, replicate, inl, inr, Bool-cases,
}
use os_porting.Kernel.Message.{MsgQueue, Post, pool_size, queue_total, set_next, empty_message}
use os_porting.Kernel.Message.Calls.{init, pool_loop, queue_loop}
use os_porting.Kernel.Message.Chain.{Pool, Chain, Away, Distinct, last, Chain-put, AllAt}
use os_porting.Kernel.Message.Mail.{Line}
use os_porting.Kernel.Message.Holds.{Holds}

-- All numbers are from `n` on.
unfoldable From : ℕ → List ℕ → Type 0
From n [] = Unit
From n (j ∷ js) = (n ≤ j) × From n js

From-suc : (n : ℕ) (js : List ℕ) → From (suc n) js → From n js
unfolding From
From-suc n [] f = tt
From-suc n (j ∷ js) (le, f) = (omega arith, From-suc n js f)

From-Away : (n : ℕ) (js : List ℕ) → From (suc n) js → Away n js
unfolding From Away
From-Away n [] f = tt
From-Away n (j ∷ js) (le, f) = (λ e. omega arith, From-Away n js f)

AllAt-free : (is : List ℕ) → AllAt (λ i. none) none is
unfolding AllAt
AllAt-free [] = tt
AllAt-free (i ∷ is) = (refl, AllAt-free is)

-- The nodes below `n` join the front of the free list.
pool_loop-Chain :
    (n : ℕ) (pool : Pool) (free : Option ℕ) (fs : List ℕ)
    → Chain pool free fs
    → Distinct fs
    → From n fs
    → (is : List ℕ) × Chain (pool_loop n pool free).0 (pool_loop n pool free).1 is
      × (length is ≡ n + length fs)
      × Distinct is
unfolding pool_loop Chain Distinct From
pool_loop-Chain zero pool free fs c d f = (fs, c, omega arith, d)
pool_loop-Chain (suc i) pool free fs c d f =
    let away = From-Away i fs f in
    let v = set_next free empty_message in
    let (is, c', e, d') =
      pool_loop-Chain i (put pool i v) (some i) (i ∷ fs)
        (
          refl,
          subst (λ x. Chain (put pool i v) x.next fs) (sym (put_self pool i v))
              (Chain-put fs pool free i v away c),
        )
        (away, d) (omega arith, From-suc i fs f) in
    (is, c', omega (arith, e), d')

abbrev fresh_queue : ℕ → MsgQueue
fresh_queue p = record {
  head = none;
  tail = none;
  count = 0;
  owner_pid = p;
  waiters = record { slots = replicate 8 none; count = 0 };
}

queue_loop-before : (n i p : ℕ) (queues : ℕ → MsgQueue) → p < i → queue_loop n i queues p ≡ queues p
unfolding queue_loop
queue_loop-before zero i p queues lt = refl
queue_loop-before (suc n) i p queues lt =
    queue_loop-before n (i + 1) p (put queues i (fresh_queue i)) (omega arith)
    ∙ put-other queues (fresh_queue i) (λ e. omega arith)

queue_loop-at :
    (n i p : ℕ) (queues : ℕ → MsgQueue)
    → i ≤ p
    → p < i + n
    → queue_loop n i queues p ≡ fresh_queue p
unfolding queue_loop
queue_loop-at zero i p queues le lt = absurd (omega arith)
queue_loop-at (suc n) i p queues le lt = elim (Bool-cases (p == i)) [
  | inl e ↦
      let same : i ≡ p = ground arith in
      queue_loop-before n (i + 1) p (put queues i (fresh_queue i)) (omega arith)
      ∙ subst (λ j. put queues j (fresh_queue j) p ≡ fresh_queue p) (sym same)
          (put_self queues p (fresh_queue p))
  | inr e ↦ queue_loop-at n (i + 1) p (put queues i (fresh_queue i)) (ground arith) (omega arith)
]

-- `msg_init`, from whatever state, leaves all 512 nodes free and every queue empty.
pub init-Holds : (m : Post) → Holds (init m) pool_size (λ p. [])
unfolding init Chain Distinct From last AllAt
init-Holds m =
    let (free, c, e, d) = pool_loop-Chain pool_size m.pool none [] refl tt tt in
    record {
      free = free;
      lines = λ p. [];
      home = λ i. none;
      free_linked = c;
      spares = omega (arith, e);
      free_distinct = d;
      free_placed = AllAt-free free;
      queue = λ p lt.
          subst (λ q. Line (init m).pool q (λ i. none) p [] [])
            (sym (queue_loop-at queue_total 0 p m.queues (omega arith) (omega arith)))
            (record {
              linked = refl;
              tail_at = refl;
              counted = refl;
              distinct = tt;
              placed = tt;
              held = refl;
            });
    }
