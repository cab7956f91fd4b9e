-- ===== src/Kernel/Heap/Frees/Chain.antt =====
-- Chains of `next` pointers that go up in memory.
use os_porting.Base.{
  ℕ, ◌+◌, ◌≤◌, ◌<◌, ◌≡◌, ◌≢◌, arith, Option, none, some, List, [], ◌∷◌, ◌++◌, put, put-other,
}

-- Following `next` from a block, or NULL, visits these blocks and ends at NULL.
unfoldable pub Chain : (ℕ → Option ℕ) → Option ℕ → List ℕ → Type 0
Chain next from [] = from ≡ none
Chain next from (b ∷ bs) = (from ≡ some b) × Chain next (next b) bs

-- The addresses go up, from `low` on.
unfoldable pub Rising : ℕ → List ℕ → Type 0
Rising low [] = Unit
Rising low (b ∷ bs) = (low ≤ b) × Rising (b + 1) bs

-- All addresses are below `high`.
unfoldable pub Below : ℕ → List ℕ → Type 0
Below high [] = Unit
Below high (b ∷ bs) = (b < high) × Below high bs

pub Rising-weaken : (bs : List ℕ) (low low' : ℕ) → low' ≤ low → Rising low bs → Rising low' bs
unfolding Rising
Rising-weaken [] low low' h r = tt
Rising-weaken (b ∷ bs) low low' h (u, r) = (omega arith, r)

pub Below-weaken : (bs : List ℕ) (high high' : ℕ) → high ≤ high' → Below high bs → Below high' bs
unfolding Below
Below-weaken [] high high' h r = tt
Below-weaken (b ∷ bs) high high' h (u, r) = (omega arith, Below-weaken bs high high' h r)

pub Rising-append :
    (xs ys : List ℕ) (low mid : ℕ)
    → low ≤ mid
    → Rising low xs
    → Below mid xs
    → Rising mid ys
    → Rising low (xs ++ ys)
unfolding Rising Below
Rising-append [] ys low mid h r u s = Rising-weaken ys mid low h s
Rising-append (x ∷ xs) ys low mid h (w, r) (v, u) s =
    (w, Rising-append xs ys (x + 1) mid (omega arith) r u s)

-- A write below a chain is not seen.
pub Chain-put :
    (bs : List ℕ) (next : ℕ → Option ℕ) (from : Option ℕ) (low a : ℕ) (v : Option ℕ)
    → Rising low bs
    → a < low
    → Chain next from bs
    → Chain (put next a v) from bs
unfolding Chain Rising
Chain-put [] next from low a v r h c = c
Chain-put (b ∷ bs) next from low a v (u, r) h (e, c) =
    let other : b ≢ a = omega arith in
    (e, rw (put-other next v other) (Chain-put bs next (next b) (b + 1) a v r (omega arith) c))

-- A write between two parts of a chain is not seen.
pub Chain-put_between :
    (xs ys : List ℕ) (next : ℕ → Option ℕ) (from : Option ℕ) (a : ℕ) (v : Option ℕ)
    → Below a xs
    → Rising (a + 1) ys
    → Chain next from (xs ++ ys)
    → Chain (put next a v) from (xs ++ ys)
unfolding Chain Below
Chain-put_between [] ys next from a v u r c = Chain-put ys next from (a + 1) a v r (omega arith) c
Chain-put_between (x ∷ xs) ys next from a v (u, us) r (e, c) =
    let other : x ≢ a = omega arith in
    (e, rw (put-other next v other) (Chain-put_between xs ys next (next x) a v us r c))

-- What a chain does not visit: the addresses from `from` up to `low`.
pub Chain-frame :
    (bs : List ℕ) (next next' : ℕ → Option ℕ) (from : Option ℕ) (low : ℕ)
    → Rising low bs
    → ((a : ℕ) → low ≤ a → next' a ≡ next a)
    → Chain next from bs
    → Chain next' from bs
unfolding Chain Rising
Chain-frame [] next next' from low r same c = c
Chain-frame (b ∷ bs) next next' from low (u, r) same (e, c) = (
  e,
  rw (same b u) (Chain-frame bs next next' (next b) (b + 1) r (λ a h. same a (omega arith)) c),
)
