-- ===== src/Kernel/Heap/Frees/Removal.antt =====
-- `free_list_remove` takes one block out of the list.
use os_porting.Base.{
  ℕ, zero, suc, ◌+◌, ◌^◌, ◌≤◌, ◌<◌, ◌≡◌, ◌≢◌, sym, subst, arith, true, false, Option, none, some,
  List, [], ◌∷◌, ◌++◌, length, ◌==◌, put, put_self, put-other, ◌∙◌, Yields, yields, Yields-bind,
  Yields-mono,
}
use os_porting.Kernel.Heap.Frees.{FreeList, find_before, remove, remove_from}
use os_porting.Kernel.Heap.Frees.Chain.{Chain, Rising, Below, Chain-put, Chain-frame}
use os_porting.Kernel.Heap.Frees.Laws.{Lists, Between, length-insert}

-- The pointers after `b` left the list behind `c`.
abbrev parted : (ℕ → Option ℕ) → ℕ → ℕ → ℕ → Option ℕ
parted next c b = put (put next c (next b)) b none

record Parted (next : ℕ → Option ℕ) (cur b : ℕ) (bs : List ℕ) (c : ℕ) : Type 0 where
  up : cur ≤ c
  below : c < b
  found : next c ≡ some b
  chain : Chain (parted next c b) (parted next c b cur) bs

parted-other : (next : ℕ → Option ℕ) (c b : ℕ) {a : ℕ} → a ≢ c → a ≢ b → parted next c b a ≡ next a
parted-other next c b far away =
    put-other (put next c (next b)) none away ∙ put-other next (next b) far

Parted-here :
    (ys : List ℕ) (next : ℕ → Option ℕ) (cur b : ℕ)
    → next cur ≡ some b
    → Chain next (next b) ys
    → Rising (b + 1) ys
    → cur < b
    → Parted next cur b ys cur
Parted-here ys next cur b e c s h =
    let apart : cur ≢ b = omega arith in
    let past : parted next cur b cur ≡ next b =
      put-other (put next cur (next b)) none apart ∙ put_self next cur (next b) in
    record {
      up = omega arith;
      below = h;
      found = e;
      chain = rw past (
          Chain-frame ys next (parted next cur b) (next b) (b + 1) s
            (λ a u. parted-other next cur b (omega arith) (omega arith)) c);
    }

Parted-later :
    (bs : List ℕ) (next : ℕ → Option ℕ) (cur x b c : ℕ)
    → next cur ≡ some x
    → cur < x
    → x < b
    → Parted next x b bs c
    → Parted next cur b (x ∷ bs) c
unfolding Chain
Parted-later bs next cur x b c e w v j = record {
  up = omega (arith, j.up);
  below = j.below;
  found = j.found;
  chain = (parted-other next c b (omega (arith, j.up)) (omega (arith, j.below)) ∙ e, j.chain);
}

find_before-Parted :
    (xs ys : List ℕ) (fuel cur b : ℕ) (next : ℕ → Option ℕ)
    → Chain next (next cur) (xs ++ b ∷ ys)
    → Rising (cur + 1) xs
    → Below b xs
    → Rising (b + 1) ys
    → cur < b
    → length xs < fuel
    → Yields (Parted next cur b (xs ++ ys)) (find_before next b fuel cur)
unfolding find_before Chain Rising Below
find_before-Parted xs ys zero cur b next c r u s h room = absurd (omega arith)
find_before-Parted [] ys (suc fuel) cur b next (e, c) r u s h room =
    let stop : (b == b) ≡ true = ground arith in
    let found = Parted-here ys next cur b e c s h in rw (e, stop) (yields found)
find_before-Parted (x ∷ xs) ys (suc fuel) cur b next (e, c) (w, r) (v, u) s h room =
    let go : (x == b) ≡ false = ground arith in
    let rest = find_before-Parted xs ys fuel x b next c r u s v (omega arith) in
    rw (e, go)
      (Yields-mono rest (λ k j. Parted-later (xs ++ ys) next cur x b k e (omega arith) v j))

pub remove-Lists :
    (xs ys : List ℕ) (b fuel : ℕ) (l : FreeList)
    → Lists (xs ++ b ∷ ys) l
    → Between xs b ys
    → length xs ≤ fuel
    → length (xs ++ ys) + 1 < 2 ^ 64
    → Yields (Lists (xs ++ ys)) (remove fuel b l)
unfolding remove Chain Rising Below
remove-Lists [] ys b fuel l s between room small =
    let same : (b == b) ≡ true = ground arith in
    subst (λ o. Yields (Lists ys) (remove_from o fuel b l)) (sym s.chain.0)
      (rw same (
        yields (record {
          chain =
              Chain-put ys l.next (l.next b) (b + 1) b none between.above (omega arith) s.chain.1;
          counted = omega (arith, s.counted);
        })))
remove-Lists (x ∷ xs) ys b fuel l s between room small =
    let later : (x == b) ≡ false = ground (arith, between.below.0) in
    let same : (b == b) ≡ true = ground arith in
    let found =
      find_before-Parted xs ys fuel x b l.next s.chain.1 between.rising.1 between.below.1
        between.above between.below.0 (omega arith) in
    subst (λ o. Yields (Lists (x ∷ xs ++ ys)) (remove_from o fuel b l)) (sym s.chain.0)
      (rw later (
        Yields-bind found (λ c j.
          rw (j.found, same)
            (yields (record {
              chain = (s.chain.0, j.chain);
              counted = omega (arith, s.counted, length-insert (x ∷ xs) ys b);
            })))))
