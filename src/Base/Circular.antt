-- ===== src/Base/Circular.antt =====
-- A circular buffer: the copy loops that move `n` entries through an index kept modulo `size`, and
-- the entries that such a buffer holds, with an entry `d` for reads out of bounds. Shared by the
-- kernel's pipes and the scheduler's ready queue.
use Prim.Native.Nat.{ℕ, zero, suc, ◌+◌, ◌-◌, ◌%◌, ◌≤◌, ◌<◌}
use mathlib.Core.Path.{◌≡◌, refl, sym, ap, ap₂, ◌∙◌}
use mathlib.Core.Logic.{◌≢◌}
use mathlib.Core.List.{List, [], ◌∷◌, ◌++◌, append_assoc, append-nil}
use native.Mathlib.Nat.{add-zero, mod-add-mod, mod-eq_of_lt, mod-eq-sub-mod, mod-lt}
use native.Mathlib.Decide.{dec_lt}
use native.Mathlib.Omega.{arith}
use os_porting.Base.Lists.{length, get_or, set, length-set, get_or-set_self, get_or-set_ne}

module _ (size : ℕ) where
  pub shift_index : (at n : ℕ) → (at + suc n) % size ≡ ((at + 1) % size + n) % size
  shift_index at n = rw (mod-add-mod (at + 1) size n) (ap (λ k. k % size) (omega arith))

  pub index_zero : (at : ℕ) → at < size → (at + 0) % size ≡ at
  index_zero at h = rw (add-zero at) (mod-eq_of_lt h)

  -- Fewer than `size` steps round the buffer do not come back to the start.
  pub index_ne : (at k : ℕ) → at < size → suc k < size → (at + suc k) % size ≢ at
  index_ne at k ha hk = elim (dec_lt (at + suc k) size) [
    | yes p ↦ omega (arith, mod-eq_of_lt p)
    | no p ↦ omega (
      arith,
      mod-eq-sub-mod {n = at + suc k} {m = size} (omega arith),
      mod-eq_of_lt {n = at + suc k - size} {m = size} (omega arith),
    )
  ]

  -- Two step counts below `size` that differ lead from `at` to different places.
  pub index_inj : (at k m : ℕ) → k < m → m < size → (at + k) % size ≢ (at + m) % size
  index_inj at k m lt in_range e =
      let from = (at + k) % size in
      let there : (from + suc (m - suc k)) % size ≡ (at + m) % size =
        mod-add-mod (at + k) size (suc (m - suc k)) ∙ ap (λ j. j % size) (omega arith) in
      index_ne from (m - suc k) (mod-lt (at + k) (omega arith)) (omega arith) (there ∙ sym e)

module _ {ℓ} {A : Type ℓ} (size : ℕ) (d : A) where
  -- The writing loop: the entries still to write, the buffer and the write index.
  unfoldable pub store : List A → List A → ℕ → List A × ℕ
  store [] buffer at = (buffer, at)
  store (x ∷ xs) buffer at = store xs (set buffer at x) ((at + 1) % size)

  -- The reading loop: the rounds left, the buffer and the read index.
  unfoldable pub fetch : ℕ → List A → ℕ → List A × ℕ
  fetch zero buffer at = ([], at)
  fetch (suc n) buffer at =
      let (xs, end) = fetch n buffer ((at + 1) % size) in (get_or buffer at d ∷ xs, end)

  -- What a buffer holds: the `n` entries from index `at` on, going round at `size`.
  unfoldable pub window : List A → ℕ → ℕ → List A
  window buffer at zero = []
  window buffer at (suc n) = get_or buffer at d ∷ window buffer ((at + 1) % size) n

  pub length-window : (buffer : List A) (at n : ℕ) → length (window buffer at n) ≡ n
  unfolding window
  length-window buffer at zero = refl
  length-window buffer at (suc n) = ap suc (length-window buffer ((at + 1) % size) n)

  pub window-zero : (buffer : List A) (at : ℕ) → window buffer at 0 ≡ []
  unfolding window
  window-zero buffer at = refl

  pub window-suc :
      (buffer : List A) (at n : ℕ)
      → window buffer at (suc n) ≡ get_or buffer at d ∷ window buffer ((at + 1) % size) n
  unfolding window
  window-suc buffer at n = refl

  -- A window splits after any number of its entries.
  pub window-add :
      (buffer : List A) (at m n : ℕ)
      → at < size
      → window buffer at (m + n) ≡ window buffer at m ++ window buffer ((at + m) % size) n
  unfolding window
  window-add buffer at zero n h = ap₂ (window buffer) (sym (index_zero size at h)) (omega arith)
  window-add buffer at (suc m) n h =
      let shape : suc m + n ≡ suc (m + n) = omega arith in
      ap (window buffer at) shape
      ∙ ap (λ ys. get_or buffer at d ∷ ys)
          (window-add buffer ((at + 1) % size) m n (mod-lt (at + 1) (omega arith))
            ∙ ap (λ i. window buffer ((at + 1) % size) m ++ window buffer i n)
                (sym (shift_index size at m)))

  -- The reading loop yields the window and leaves the index just behind it.
  pub fetch_lem :
      (n : ℕ) (buffer : List A) (at : ℕ)
      → at < size
      → fetch n buffer at ≡ (window buffer at n, (at + n) % size)
  unfolding fetch window
  fetch_lem zero buffer at h = ap (λ i. ([], i)) (sym (index_zero size at h))
  fetch_lem (suc n) buffer at h =
      rw (fetch_lem n buffer ((at + 1) % size) (mod-lt (at + 1) (omega arith))) (
        ap (λ i. (get_or buffer at d ∷ window buffer ((at + 1) % size) n, i))
          (sym (shift_index size at n)))

  -- An entry written just behind a window of fewer than `size` entries extends it.
  window-set :
      (buffer : List A) (x : A) (n head at : ℕ)
      → size ≤ length buffer
      → head < size
      → n < size
      → at ≡ (head + n) % size
      → window (set buffer at x) head (suc n) ≡ window buffer head n ++ x ∷ []
  unfolding window
  window-set buffer x zero head at room h k e =
      let here : at ≡ head = e ∙ index_zero size head h in
      rw here (ap (λ y. y ∷ []) (get_or-set_self buffer head x d (omega arith)))
  window-set buffer x (suc n) head at room h k e =
      ap₂ ◌∷◌ (get_or-set_ne buffer at head x d (rw e (index_ne size head n h k))) (
        window-set buffer x n ((head + 1) % size) at room (mod-lt (head + 1) (omega arith))
          (omega arith) (e ∙ shift_index size head n))

  -- The writing loop appends its entries to the window, moves the index past them, and keeps the
  -- buffer's length, provided that they fit.
  pub store_lem :
      (xs buffer : List A) (head n at : ℕ)
      → size ≤ length buffer
      → head < size
      → n + length xs ≤ size
      → at ≡ (head + n) % size
      → let (buffer', at') = store xs buffer at in
        (window buffer' head (n + length xs) ≡ window buffer head n ++ xs)
        × (at' ≡ (head + (n + length xs)) % size)
        × (length buffer' ≡ length buffer)
  unfolding store
  store_lem [] buffer head n at room h fits e = (
    ap (window buffer head) (omega arith) ∙ sym (append-nil _),
    e ∙ ap (λ k. (head + k) % size) (omega arith),
    refl,
  )
  store_lem (x ∷ xs) buffer head n at room h fits e =
      let one = window-set buffer x n head at room h (omega arith) e in
      let (held, end, same) =
        store_lem xs (set buffer at x) head (suc n) ((at + 1) % size)
          (omega (arith, length-set {ℓ} buffer at x)) h (omega arith)
          (rw e (mod-add-mod (head + n) size 1 ∙ ap (λ k. k % size) (omega arith))) in
      (
        ap (window _ head) (omega arith)
            ∙ held
            ∙ ap (λ ys. ys ++ xs) one
            ∙ append_assoc (window buffer head n) (x ∷ []) xs,
        end ∙ ap (λ k. (head + k) % size) (omega arith),
        same ∙ length-set buffer at x,
      )

  -- A window depends on its own entries only.
  pub window-ext :
      (a b : List A) (from n : ℕ)
      → from < size
      → ((k : ℕ) → k < n → get_or a ((from + k) % size) d ≡ get_or b ((from + k) % size) d)
      → window a from n ≡ window b from n
  unfolding window
  window-ext a b from zero h same = refl
  window-ext a b from (suc n) h same =
      ap₂ ◌∷◌
        (ap (λ i. get_or a i d) (sym (index_zero size from h))
          ∙ same 0 (omega arith)
          ∙ ap (λ i. get_or b i d) (index_zero size from h))
        (window-ext a b ((from + 1) % size) n (mod-lt (from + 1) (omega arith))
          λ k lt. rw (← shift_index size from k) (same (suc k) (omega arith)))
