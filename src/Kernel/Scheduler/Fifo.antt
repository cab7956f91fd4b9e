-- ===== src/Kernel/Scheduler/Fifo.antt =====
-- The ready queue is a first-in first-out queue.
use os_porting.Base.{
  ℕ, suc, ◌+◌, ◌-◌, ◌%◌, ◌≤◌, ◌<◌, ◌≡◌, ◌∙◌, refl, sym, ap, arith, true, false, Option, none, some,
  List, [], ◌∷◌, ◌++◌, leb, ◌==◌, length, get_or, set, length-set, get_or-set_ne,
}
use os_porting.Base.Circular.{
  store, window, length-window, store_lem, window-ext, window-suc, index_ne, shift_index,
}
use os_porting.Kernel.Scheduler.{Queue, max_queue, enqueue, dequeue}

pub record IsValid (q : Queue) : Type 0 where
  pub slots_full : length q.slots ≡ max_queue
  pub head_in : q.head < max_queue
  pub count_in : q.count ≤ max_queue
  pub tail_at : q.tail ≡ (q.head + q.count) % max_queue

-- The queued processes, the one that waits longest first.
abbrev pub line : Queue → List (Option ℕ)
line q = window max_queue none q.slots q.head q.count

pub length-line : (q : Queue) → length (line q) ≡ q.count
length-line q = length-window max_queue none q.slots q.head q.count

pub enqueue-line :
    (p : ℕ) {q : Queue}
    → IsValid q
    → q.count < max_queue
    → ((enqueue (some p) q).0 ≡ true)
      × (line (enqueue (some p) q).1 ≡ line q ++ some p ∷ [])
      × IsValid (enqueue (some p) q).1
unfolding enqueue store
enqueue-line p {q} v room =
    let test : leb max_queue q.count ≡ false = ground arith in
    let (held, end, same) =
      store_lem max_queue none (some p ∷ []) q.slots q.head q.count q.tail
        (omega (arith, v.slots_full)) v.head_in (omega arith) v.tail_at in
    rw test (
      refl,
      held,
      record {
        slots_full = same ∙ v.slots_full;
        head_in = v.head_in;
        count_in = omega arith;
        tail_at = end;
      },
    )

-- A full queue refuses, and nothing changes.
pub enqueue-full : (p : ℕ) {q : Queue} → max_queue ≤ q.count → enqueue (some p) q ≡ (false, q)
unfolding enqueue
enqueue-full p {q} full = let test : leb max_queue q.count ≡ true = ground arith in rw test refl

pub dequeue-nil : {q : Queue} → q.count ≡ 0 → dequeue q ≡ (none, q)
unfolding dequeue
dequeue-nil {q} empty = let test : (q.count == 0) ≡ true = ground arith in rw test refl

pub dequeue-line :
    {q : Queue}
    → IsValid q
    → 0 < q.count
    → (line q ≡ (dequeue q).0 ∷ line (dequeue q).1) × IsValid (dequeue q).1
unfolding dequeue
dequeue-line {q} v some_left =
    let test : (q.count == 0) ≡ false = ground arith in
    let split : q.count ≡ suc (q.count - 1) = omega arith in
    let from = (q.head + 1) % max_queue in
    rw test (
      ap (window max_queue none q.slots q.head) split
          ∙ window-suc max_queue none q.slots q.head (q.count - 1)
          ∙ ap (λ r. get_or q.slots q.head none ∷ r)
              (window-ext max_queue none q.slots (set q.slots q.head none) from (q.count - 1)
                (omega arith)
                λ k lt. sym (
                  get_or-set_ne q.slots q.head ((from + k) % max_queue) none none (λ e.
                    index_ne max_queue q.head k v.head_in (omega (arith, v.count_in))
                      (shift_index max_queue q.head k ∙ sym e)))),
      record {
        slots_full = length-set q.slots q.head none ∙ v.slots_full;
        head_in = omega arith;
        count_in = omega (arith, v.count_in);
        tail_at = v.tail_at ∙ omega arith;
      },
    )
