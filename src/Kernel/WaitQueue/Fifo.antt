-- ===== src/Kernel/WaitQueue/Fifo.antt =====
-- The wait array is a first-in first-out queue.
use native.Mathlib.Numerals.{add-one}
use os_porting.Base.{
  ℕ, zero, suc, ◌-◌, ◌≤◌, ◌<◌, ◌≡◌, refl, sym, ap, ◌∙◌, inl, inr, Option, none, some, List, [], ◌∷◌,
  ◌++◌, arith, ltb, Bool-cases, length, get_or, set, take, drop, length-set, length-take,
}
use os_porting.Kernel.Process.{Procs}
use os_porting.Kernel.WaitQueue.{
  WaitQueue, max_waiters, enqueue, shift, dequeue, block, make_ready, wake, wake_loop, wake_all,
}

pub record IsValid (q : WaitQueue) : Type 0 where
  pub slots_full : length q.slots ≡ max_waiters
  pub in_range : q.count ≤ max_waiters

-- The waiting processes, the one that waits longest first.
abbrev pub waiting : WaitQueue → List (Option ℕ)
waiting q = take q.count q.slots

pub length-waiting : {q : WaitQueue} → IsValid q → length (waiting q) ≡ q.count
length-waiting {q} v = omega (arith, length-take {0} q.count q.slots, v.slots_full, v.in_range)

take-set_end :
    (xs : List (Option ℕ)) (n : ℕ) (v : Option ℕ)
    → n < length xs
    → take (suc n) (set xs n v) ≡ take n xs ++ v ∷ []
take-set_end [] n v h = absurd (omega arith)
take-set_end (x ∷ xs) zero v h = refl
take-set_end (x ∷ xs) (suc n) v h = ap (λ r. x ∷ r) (take-set_end xs n v (omega arith))

take-set_past : (xs : List (Option ℕ)) (n : ℕ) (v : Option ℕ) → take n (set xs n v) ≡ take n xs
take-set_past [] n v = refl
take-set_past (x ∷ xs) zero v = refl
take-set_past (x ∷ xs) (suc n) v = ap (λ r. x ∷ r) (take-set_past xs n v)

length-shift : (n i : ℕ) (xs : List (Option ℕ)) → length (shift n i xs) ≡ length xs
unfolding shift
length-shift zero i xs = refl
length-shift (suc n) i xs = length-shift n (suc i) _ ∙ length-set xs i (get_or xs (suc i) none)

shift-cons :
    (n i : ℕ) (x : Option ℕ) (xs : List (Option ℕ)) → shift n (suc i) (x ∷ xs) ≡ x ∷ shift n i xs
unfolding shift
shift-cons zero i x xs = refl
shift-cons (suc n) i x xs = shift-cons n (suc i) x (set xs i (get_or xs (suc i) none))

-- Moving `n` entries up by one place leaves in front what stood behind the first entry.
take-shift :
    (n : ℕ) (xs : List (Option ℕ)) → n < length xs → take n (shift n 0 xs) ≡ take n (drop 1 xs)
unfolding shift
take-shift zero xs h = refl
take-shift (suc n) [] h = absurd (omega arith)
take-shift (suc n) (x ∷ []) h = absurd (omega arith)
take-shift (suc n) (x ∷ y ∷ ys) h =
    ap (take (suc n)) (shift-cons n 0 y (y ∷ ys))
    ∙ ap (λ r. y ∷ r) (take-shift n (y ∷ ys) (omega arith))

pub enqueue-IsValid :
    {q : WaitQueue} (p : ℕ) → IsValid q → q.count < max_waiters → IsValid (enqueue q p)
unfolding enqueue
enqueue-IsValid {q} p v h = record {
  slots_full = length-set q.slots q.count (some p) ∙ v.slots_full;
  in_range = omega arith;
}

-- A process is queued at the end.
pub waiting-enqueue :
    {q : WaitQueue} (p : ℕ)
    → IsValid q
    → q.count < max_waiters
    → waiting (enqueue q p) ≡ waiting q ++ some p ∷ []
unfolding enqueue
waiting-enqueue {q} p v h =
    rw (add-one q.count) (take-set_end q.slots q.count (some p) (omega (arith, v.slots_full)))

count-dequeue : (q : WaitQueue) → (dequeue q).1.count ≡ q.count - 1
unfolding dequeue
count-dequeue q = refl

dequeue-IsValid : {q : WaitQueue} → IsValid q → IsValid (dequeue q).1
unfolding dequeue
dequeue-IsValid {q} v = record {
  slots_full =
      length-set (shift (q.count - 1) 0 q.slots) (q.count - 1) none
      ∙ length-shift (q.count - 1) 0 q.slots
      ∙ v.slots_full;
  in_range = omega (arith, v.in_range);
}

take-cons_drop :
    (n : ℕ) (xs : List (Option ℕ))
    → 0 < length xs
    → take (suc n) xs ≡ get_or xs 0 none ∷ take n (drop 1 xs)
take-cons_drop n [] h = absurd (omega arith)
take-cons_drop n (x ∷ xs) h = refl

-- What is taken out stood at the front, and the rest keeps its order.
pub waiting-dequeue :
    {q : WaitQueue} → IsValid q → 0 < q.count → waiting q ≡ (dequeue q).0 ∷ waiting (dequeue q).1
unfolding dequeue
waiting-dequeue {q} v h =
    let n = q.count - 1 in
    let shape : q.count ≡ suc n = omega arith in
    ap (λ k. take k q.slots) shape
    ∙ take-cons_drop n q.slots (omega (arith, v.slots_full))
    ∙ ap (λ r. get_or q.slots 0 none ∷ r)
        (sym (
          take-set_past (shift n 0 q.slots) n none
          ∙ take-shift n q.slots (omega (arith, v.slots_full, v.in_range))))

pub block-IsValid : {q : WaitQueue} (ps : Procs) → IsValid q → IsValid (block q ps).0
unfolding block
block-IsValid {q} ps v = grind (arith, enqueue-IsValid)

pub wake-IsValid : {q : WaitQueue} (ps : Procs) → IsValid q → IsValid (wake q ps).0
unfolding wake
wake-IsValid {q} ps v = ground (arith, dequeue-IsValid v)

-- Making the listed processes ready, in order.
abbrev pub ready_all : Procs → List (Option ℕ) → Procs
ready_all ps [] = ps
ready_all ps (p ∷ rest) = ready_all (make_ready ps p) rest

ready_all-none : (ps : Procs) (n : ℕ) (xs : List (Option ℕ)) → n ≡ 0 → ready_all ps (take n xs) ≡ ps
ready_all-none ps zero xs h = refl
ready_all-none ps (suc n) xs h = absurd (omega arith)

-- What the loop leaves of the queue `q` and of the process table `ps`.
abbrev Woken : WaitQueue → Procs → WaitQueue × Procs → Type 0
Woken q ps (q', ps') = (q'.count ≡ 0) × (ps' ≡ ready_all ps (waiting q)) × IsValid q'

wake-head :
    (q : WaitQueue) (ps : Procs)
    → 0 < q.count
    → wake q ps ≡ ((dequeue q).1, make_ready ps (dequeue q).0)
unfolding wake
wake-head q ps h = ground arith

wake_loop-Woken :
    (fuel : ℕ) (q : WaitQueue) (ps : Procs)
    → IsValid q
    → q.count ≤ fuel
    → Woken q ps (wake_loop fuel q ps)
unfolding wake_loop
wake_loop-Woken zero q ps v h =
    (omega arith, sym (ready_all-none ps q.count q.slots (omega arith)), v)
wake_loop-Woken (suc fuel) q ps v h = elim (Bool-cases (ltb 0 q.count)) [
  | inl some_left ↦
      let pos : 0 < q.count = ground arith in
      rw (some_left, wake-head q ps pos)
        (let (done, ready, valid) =
            wake_loop-Woken fuel (dequeue q).1 (make_ready ps (dequeue q).0) (dequeue-IsValid v)
              (ground (arith, count-dequeue q)) in
          (done, ready ∙ ap (ready_all ps) (sym (waiting-dequeue v pos)), valid))
  | inr empty ↦ rw empty (
      let none_left : q.count ≡ 0 = ground arith in
      (none_left, sym (ready_all-none ps q.count q.slots none_left), v))
]

-- `wake_all` empties the queue and makes every waiting process ready, in the order of waiting.
pub wake_all-Woken :
    {q : WaitQueue} (ps : Procs)
    → IsValid q
    → ((wake_all q ps).0.count ≡ 0)
      × ((wake_all q ps).1 ≡ ready_all ps (waiting q))
      × IsValid (wake_all q ps).0
unfolding wake_all
wake_all-Woken {q} ps v = wake_loop-Woken q.count q ps v (omega arith)
