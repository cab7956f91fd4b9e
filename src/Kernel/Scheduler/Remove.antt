-- ===== src/Kernel/Scheduler/Remove.antt =====
-- `queue_remove` takes the first entry of a process out of the line and keeps the order of the rest.
use os_porting.Base.{
  some, append_assoc, append-nil, inl, inr, Bool-cases, ◌==◌, ℕ, zero, suc, ◌+◌, ◌-◌, ◌%◌, ◌<◌, ◌≡◌,
  ◌≢◌, ◌∙◌, refl, sym, ap, ap₂, arith, Bool, true, false, Option, none, List, [], ◌∷◌, ◌++◌, length,
  get_or, set, length-set, get_or-set_ne, get_or-set_self, if◌then◌else◌,
}
use os_porting.Base.Circular.{
  window, window-add, window-ext, window-suc, window-zero, index_ne, index_inj, shift_index,
  index_zero,
}
use os_porting.Kernel.Process.Table.{is_process}
use os_porting.Kernel.Scheduler.{remove, remove_loop, Queue, max_queue, shift_loop, take_away}
use os_porting.Kernel.Scheduler.Fifo.{IsValid, line}
use native.Mathlib.Nat.{mod-add-mod}

-- The line without the first entry of the process, and whether there was one.
unfoldable pub erase : ℕ → List (Option ℕ) → List (Option ℕ)
erase p [] = []
erase p (x ∷ xs) = if is_process p x then xs else x ∷ erase p xs

unfoldable pub contains : ℕ → List (Option ℕ) → Bool
contains p [] = false
contains p (x ∷ xs) = if is_process p x then true else contains p xs

abbrev Slots : Type 0
Slots = List (Option ℕ)

abbrev seen : Slots → ℕ → ℕ → Slots
seen = window max_queue none

length-shift_loop : (n at : ℕ) (slots : Slots) → length (shift_loop n at slots) ≡ length slots
unfolding shift_loop
length-shift_loop zero at slots = refl
length-shift_loop (suc n) at slots =
    length-shift_loop n ((at + 1) % max_queue) _
    ∙ length-set slots at (get_or slots ((at + 1) % max_queue) none)

-- Slots away from those that are written keep their entries.
shift_loop-outside :
    (n at i : ℕ) (slots : Slots)
    → at < max_queue
    → ((k : ℕ) → k < n → (at + k) % max_queue ≢ i)
    → get_or (shift_loop n at slots) i none ≡ get_or slots i none
unfolding shift_loop
shift_loop-outside zero at i slots h away = refl
shift_loop-outside (suc n) at i slots h away =
    shift_loop-outside n ((at + 1) % max_queue) i _ (omega arith)
      (λ k lt e. away (suc k) (omega arith) (shift_index max_queue at k ∙ e))
    ∙ get_or-set_ne slots at i (get_or slots ((at + 1) % max_queue) none) none
        (λ e. away 0 (omega arith) (index_zero max_queue at h ∙ e))

-- The entries from `at` on become those from the next slot on.
shift_loop-window :
    (n at : ℕ) (slots : Slots)
    → length slots ≡ max_queue
    → at < max_queue
    → n < max_queue
    → seen (shift_loop n at slots) at n ≡ seen slots ((at + 1) % max_queue) n
unfolding shift_loop
shift_loop-window zero at slots full h lt =
    window-zero max_queue none slots at
    ∙ sym (window-zero max_queue none slots ((at + 1) % max_queue))
shift_loop-window (suc n) at slots full h lt =
    let next = (at + 1) % max_queue in
    let written = set slots at (get_or slots next none) in
    let away : (k : ℕ) → k < n → (next + k) % max_queue ≢ at =
      λ k low e. index_ne max_queue at k h (omega arith) (shift_index max_queue at k ∙ e) in
    window-suc max_queue none (shift_loop n next written) at n
    ∙ ap₂ ◌∷◌
        (shift_loop-outside n next at written (omega arith) away
          ∙ get_or-set_self slots at (get_or slots next none) none (omega arith))
        (shift_loop-window n next written (length-set slots at (get_or slots next none) ∙ full)
            (omega arith) (omega arith)
          ∙ window-ext max_queue none written slots ((next + 1) % max_queue) n (omega arith)
              λ k low. get_or-set_ne slots at (((next + 1) % max_queue + k) % max_queue) _ none λ e.
                index_ne max_queue at (suc k) h (omega arith)
                  (shift_index max_queue at (suc k) ∙ shift_index max_queue next k ∙ sym e))
    ∙ sym (window-suc max_queue none slots next n)

module _ {q : Queue} (v : IsValid q) (i n : ℕ) (all : q.count ≡ i + suc n) where
  abbrev at : ℕ
  at = (q.head + i) % max_queue

  abbrev end : ℕ
  end = (q.tail + max_queue - 1) % max_queue

  abbrev moved : Slots
  moved = shift_loop n at q.slots

  end_lem : end ≡ (q.head + (i + n)) % max_queue
  end_lem = omega (arith, v.tail_at, all)

  -- The slot that is cleared lies behind the rest.
  cleared : seen (set moved end none) q.head (i + n) ≡ seen moved q.head (i + n)
  cleared = window-ext max_queue none (set moved end none) moved q.head (i + n) v.head_in λ k lt.
      get_or-set_ne moved end ((q.head + k) % max_queue) none none λ e.
        index_inj max_queue q.head k (i + n) lt (omega (arith, v.count_in, all)) (sym e ∙ end_lem)

  front_kept : seen moved q.head i ≡ seen q.slots q.head i
  front_kept = window-ext max_queue none moved q.slots q.head i v.head_in λ k lt.
      shift_loop-outside n at ((q.head + k) % max_queue) q.slots (omega arith) λ j low e.
        index_inj max_queue q.head k (i + j) (omega arith) (omega (arith, v.count_in, all))
          (sym e ∙ mod-add-mod (q.head + i) max_queue j ∙ ap (λ m. m % max_queue) (omega arith))

  take_away-line :
      (line (take_away n at q) ≡ seen q.slots q.head i ++ seen q.slots ((at + 1) % max_queue) n)
      × IsValid (take_away n at q)
  unfolding take_away
  take_away-line = (
    ap (seen (set moved end none) q.head) (omega arith)
        ∙ cleared
        ∙ window-add max_queue none moved q.head i n v.head_in
        ∙ ap₂ (λ xs ys. xs ++ ys) front_kept
            (shift_loop-window n at q.slots v.slots_full (omega arith)
              (omega (arith, v.count_in, all))),
    record {
      slots_full = length-set moved end none ∙ length-shift_loop n at q.slots ∙ v.slots_full;
      head_in = v.head_in;
      count_in = omega (arith, v.count_in);
      tail_at = end_lem ∙ ap (λ k. (q.head + k) % max_queue) (omega arith);
    },
  )

remove_loop-line :
    (n i p : ℕ) {q : Queue}
    → IsValid q
    → q.count ≡ i + n
    → let r = remove_loop n ((q.head + i) % max_queue) p q in
      let rest = seen q.slots ((q.head + i) % max_queue) n in
      (r.0 ≡ contains p rest) × (line r.1 ≡ seen q.slots q.head i ++ erase p rest) × IsValid r.1
unfolding remove_loop contains erase
remove_loop-line zero i p {q} v all =
    let here : q.count ≡ i = omega arith in
    rw (window-zero max_queue none q.slots ((q.head + i) % max_queue))
      (refl, ap (seen q.slots q.head) here ∙ sym (append-nil (seen q.slots q.head i)), v)
remove_loop-line (suc n) i p {q} v all =
    let at = (q.head + i) % max_queue in
    let next : (at + 1) % max_queue ≡ (q.head + (i + 1)) % max_queue = omega arith in
    let shown = window-suc max_queue none q.slots at n in
    elim (Bool-cases (is_process p (get_or q.slots at none))) [
      | inl found ↦
          let (held, valid) = take_away-line v i n all in rw (shown, found) (refl, held, valid)
      | inr other ↦
          let (done, held, valid) = remove_loop-line n (i + 1) p v (omega arith) in
          let rest = seen q.slots ((at + 1) % max_queue) n in
          let one : seen q.slots q.head (i + 1)
              ≡ seen q.slots q.head i ++ get_or q.slots at none ∷ [] =
            window-add max_queue none q.slots q.head i 1 v.head_in
            ∙ ap (λ r. seen q.slots q.head i ++ r)
                (window-suc max_queue none q.slots at 0
                  ∙ ap (λ r. get_or q.slots at none ∷ r)
                      (window-zero max_queue none q.slots ((at + 1) % max_queue))) in
          rw (shown, other, next)
            (
              done,
              held
                  ∙ ap (λ r. r ++ erase p (seen q.slots ((q.head + (i + 1)) % max_queue) n)) one
                  ∙ append_assoc (seen q.slots q.head i) (get_or q.slots at none ∷ []) _,
              valid,
            )
    ]

-- `queue_remove` of a process from a valid queue says whether the process was queued, takes its first
-- entry out, and keeps the order of the others.
pub remove-line :
    (p : ℕ) {q : Queue}
    → IsValid q
    → ((remove (some p) q).0 ≡ contains p (line q))
      × (line (remove (some p) q).1 ≡ erase p (line q))
      × IsValid (remove (some p) q).1
unfolding remove contains erase
remove-line p {q} v = elim (Bool-cases (q.count == 0)) [
  | inl empty ↦
      let nothing : line q ≡ [] =
        ap (seen q.slots q.head) (ground arith) ∙ window-zero max_queue none q.slots q.head in
      rw (empty, nothing) (refl, refl, v)
  | inr more ↦
      let start : (q.head + 0) % max_queue ≡ q.head = omega (arith, v.head_in) in
      let (done, held, valid) = rw start at (remove_loop-line q.count 0 p v (omega arith)) in
      rw more (
        done,
        held ∙ ap (λ xs. xs ++ erase p (line q)) (window-zero max_queue none q.slots q.head),
        valid,
      )
]
