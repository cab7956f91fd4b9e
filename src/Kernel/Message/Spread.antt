-- ===== src/Kernel/Message/Spread.antt =====
-- What becomes of the queues that the loop of `msg_broadcast` passes.
use os_porting.Base.{
  put, put_self, put-other, ℕ, suc, ◌+◌, ◌<◌, ◌≤◌, ◌≢◌, ◌≡◌, ◌∙◌, ◌⊎◌, subst, arith, true, false,
  List, [], ◌∷◌, ◌++◌, ◌==◌, length, inl, inr, Bool-cases,
}
use os_porting.Kernel.Message.{Post, queue_size, flag_broadcast}
use os_porting.Kernel.Message.Mail.{Letter}
use os_porting.Kernel.Message.Holds.{Holds}
use os_porting.Kernel.Message.Living.{has_receiver}

-- A queue that holds one more letter, which is the one that is broadcast.
abbrev pub Grown : List ℕ → List Letter → List Letter → Type 0
Grown text old new =
    (x : Letter) × (new ≡ old ++ x ∷ []) × (x.text ≡ text) × (x.flags ≡ flag_broadcast)

-- Why the queue of a PID gets nothing: it is the sender's, no process alive has the PID, the queue is
-- full, or no node is left.
abbrev pub Missed : Post → ℕ → ℕ → List Letter → ℕ → Type 0
Missed m src p old left =
    (p ≡ src) ⊎ ((has_receiver p m ≡ false) ⊎ ((queue_size ≤ length old) ⊎ (left ≡ 0)))

-- What becomes of the queue of a PID that the loop passes: it grows, if its process lives, is not the
-- sender and has room; or it holds what it held.
abbrev pub Fate : Post → ℕ → List ℕ → ℕ → List Letter → List Letter → ℕ → Type 0
Fate m src text p old new left =
    ((p ≢ src) × (has_receiver p m ≡ true) × (length old < queue_size) × Grown text old new)
    ⊎ ((new ≡ old) × Missed m src p old left)

-- The loop over `k` PIDs from `from` on, with `n` recipients before it; `start` is the state that the
-- broadcast began with.
pub record Spread (start : Post) (src : ℕ) (text : List ℕ) (k from n spare : ℕ)
    (mail : ℕ → List Letter) (r : ℕ × Post) : Type 0 where
  pub left : ℕ
  pub after : ℕ → List Letter
  pub taken : left + r.0 ≡ spare + n
  pub more : n ≤ r.0
  pub holds : Holds r.1 left after
  pub outside : (p : ℕ) → (p < from) ⊎ (from + k ≤ p) → after p ≡ mail p
  pub each : (p : ℕ) → from ≤ p → p < from + k → Fate start src text p (mail p) (after p) left

module _ (start : Post) (src : ℕ) (text : List ℕ) (k pid n : ℕ) where
  -- The first of the PIDs gets the letter.
  pub Spread-sent :
      (spare : ℕ) {mail : ℕ → List Letter} (r : ℕ × Post) (x : Letter)
      → x.text ≡ text
      → x.flags ≡ flag_broadcast
      → pid ≢ src
      → has_receiver pid start ≡ true
      → length (mail pid) < queue_size
      → Spread start src text k (pid + 1) (n + 1) spare (put mail pid (mail pid ++ x ∷ [])) r
      → Spread start src text (suc k) pid n (suc spare) mail r
  Spread-sent spare {mail} r x same_text same_flags other alive room s =
      let here : s.after pid ≡ mail pid ++ x ∷ [] =
        s.outside pid (inl (omega arith)) ∙ put_self mail pid (mail pid ++ x ∷ []) in
      record {
        left = s.left;
        after = s.after;
        taken = omega (arith, s.taken);
        more = omega (arith, s.more);
        holds = s.holds;
        outside = λ p out.
            s.outside p (ground arith) ∙ put-other mail (mail pid ++ x ∷ []) (λ e. ground arith);
        each = λ p low high. elim (Bool-cases (p == pid)) [
          | inl e ↦
              let at : pid ≡ p = ground arith in
              subst (λ q. Fate start src text q (mail q) (s.after q) s.left) at
                (inl (other, alive, room, (x, here, same_text, same_flags)))
          | inr e ↦
              subst (λ old. Fate start src text p old (s.after p) s.left)
                (put-other mail (mail pid ++ x ∷ []) (λ same. ground arith))
                (s.each p (ground arith) (omega arith))
        ];
      }

  -- The first of the PIDs gets nothing.
  pub Spread-skip :
      (spare : ℕ) {mail : ℕ → List Letter} (r : ℕ × Post)
      → ((left : ℕ) → left ≤ spare → Missed start src pid (mail pid) left)
      → Spread start src text k (pid + 1) n spare mail r
      → Spread start src text (suc k) pid n spare mail r
  Spread-skip spare {mail} r missed s = record {
    left = s.left;
    after = s.after;
    taken = s.taken;
    more = s.more;
    holds = s.holds;
    outside = λ p out. s.outside p (ground arith);
    each = λ p low high. elim (Bool-cases (p == pid)) [
      | inl e ↦
          let at : pid ≡ p = ground arith in
          subst (λ q. Fate start src text q (mail q) (s.after q) s.left) at
            (inr
              (s.outside pid (inl (omega arith)), missed s.left (omega (arith, s.taken, s.more))))
      | inr e ↦ s.each p (ground arith) (omega arith)
    ];
  }
