-- ===== src/Kernel/Heap/Frees/Laws.antt =====
-- `free_list_add` keeps the list in order.
use os_porting.Base.{
  ℕ, zero, suc, ◌+◌, ◌^◌, ◌≤◌, ◌<◌, ◌≡◌, ◌≢◌, refl, sym, subst, arith, true, false, Option, some,
  List, [], ◌∷◌, ◌++◌, length, ltb, put, put_self, put-other, ◌∙◌, Yields, yields, Yields-bind,
  Yields-mono,
}
use os_porting.Kernel.Heap.Frees.{FreeList, at_front, insertion_point, add, add_from}
use os_porting.Kernel.Heap.Frees.Chain.{Chain, Rising, Below, Chain-put, Chain-frame}

-- The pointers after `b` joined the list behind `c`.
abbrev joined : (ℕ → Option ℕ) → ℕ → ℕ → ℕ → Option ℕ
joined next c b = put (put next b (next c)) c (some b)

record Joined (next : ℕ → Option ℕ) (cur b : ℕ) (bs : List ℕ) (c : ℕ) : Type 0 where
  up : cur ≤ c
  below : c < b
  chain : Chain (joined next c b) (joined next c b cur) bs

joined-after : (next : ℕ → Option ℕ) (c b : ℕ) → joined next c b c ≡ some b
joined-after next c b = put_self (put next b (next c)) c (some b)

joined_new : (next : ℕ → Option ℕ) {c b : ℕ} → c < b → joined next c b b ≡ next c
joined_new next {c} {b} h =
    let apart : b ≢ c = omega arith in
    put-other (put next b (next c)) (some b) apart ∙ put_self next b (next c)

joined-other : (next : ℕ → Option ℕ) (c b : ℕ) {a : ℕ} → a ≢ c → a ≢ b → joined next c b a ≡ next a
joined-other next c b far away =
    put-other (put next b (next c)) (some b) far ∙ put-other next (next c) away

-- The block behind `cur` is `b`, and then the rest of the chain.
Joined-here :
    (ys : List ℕ) (next : ℕ → Option ℕ) (cur b : ℕ)
    → Chain next (next cur) ys
    → Rising (b + 1) ys
    → cur < b
    → Joined next cur b (b ∷ ys) cur
unfolding Chain
Joined-here ys next cur b c s h = record {
  up = omega arith;
  below = h;
  chain = (
    joined-after next cur b,
    rw (joined_new next h) (
        Chain-frame ys next (joined next cur b) (next cur) (b + 1) s
          (λ a u. joined-other next cur b (omega arith) (omega arith)) c),
  );
}

Joined-later :
    (bs : List ℕ) (next : ℕ → Option ℕ) (cur x b c : ℕ)
    → next cur ≡ some x
    → cur < x
    → x < b
    → Joined next x b bs c
    → Joined next cur b (x ∷ bs) c
unfolding Chain
Joined-later bs next cur x b c e w v j = record {
  up = omega (arith, j.up);
  below = j.below;
  chain = (joined-other next c b (omega (arith, j.up)) (omega (arith, j.below)) ∙ e, j.chain);
}

insertion_point-Joined :
    (xs ys : List ℕ) (fuel cur b : ℕ) (next : ℕ → Option ℕ)
    → Chain next (next cur) (xs ++ ys)
    → Rising (cur + 1) xs
    → Below b xs
    → Rising (b + 1) ys
    → cur < b
    → length xs < fuel
    → Yields (Joined next cur b (xs ++ b ∷ ys)) (insertion_point next b fuel cur)
unfolding insertion_point Chain Rising Below
insertion_point-Joined xs ys zero cur b next c r u s h room = absurd (omega arith)
insertion_point-Joined [] [] (suc fuel) cur b next c r u s h room =
    let found = Joined-here [] next cur b c tt h in rw c (yields found)
insertion_point-Joined [] (y ∷ ys) (suc fuel) cur b next (e, c) r u (w, s) h room =
    let stop : ltb y b ≡ false = ground arith in
    let found = Joined-here (y ∷ ys) next cur b (e, c) (w, s) h in rw (e, stop) (yields found)
insertion_point-Joined (x ∷ xs) ys (suc fuel) cur b next (e, c) (w, r) (v, u) s h room =
    let go : ltb x b ≡ true = ground arith in
    let rest = insertion_point-Joined xs ys fuel x b next c r u s v (omega arith) in
    rw (e, go)
      (Yields-mono rest (λ k j. Joined-later (xs ++ b ∷ ys) next cur x b k e (omega arith) v j))

-- The list holds these blocks, and its counter is right.
pub record Lists (bs : List ℕ) (l : FreeList) : Type 0 where
  pub chain : Chain l.next l.head bs
  pub counted : l.count ≡ length bs

-- Where `b` stands in a rising list: behind `xs` and before `ys`.
pub record Between (xs : List ℕ) (b : ℕ) (ys : List ℕ) : Type 0 where
  pub rising : Rising 0 xs
  pub below : Below b xs
  pub above : Rising (b + 1) ys

pub length-insert : (xs ys : List ℕ) (b : ℕ) → length (xs ++ b ∷ ys) ≡ length (xs ++ ys) + 1
length-insert [] ys b = omega arith
length-insert (x ∷ xs) ys b = omega (arith, length-insert xs ys b)

at_front-Lists :
    (ys : List ℕ) (b : ℕ) (l : FreeList)
    → Lists ys l
    → Rising (b + 1) ys
    → length ys + 1 < 2 ^ 64
    → Lists (b ∷ ys) (at_front b l)
unfolding Chain
at_front-Lists ys b l s up small = record {
  chain = (
    refl,
    rw (put_self l.next b l.head)
        (Chain-put ys l.next l.head (b + 1) b l.head up (omega arith) s.chain),
  );
  counted = omega (arith, s.counted);
}

pub add-Lists :
    (xs ys : List ℕ) (b fuel : ℕ) (l : FreeList)
    → Lists (xs ++ ys) l
    → Between xs b ys
    → length xs ≤ fuel
    → length (xs ++ ys) + 1 < 2 ^ 64
    → Yields (Lists (xs ++ b ∷ ys)) (add fuel b l)
unfolding add Chain Rising Below
add-Lists [] [] b fuel l s between room small =
    subst (λ o. Yields (Lists (b ∷ [])) (add_from o fuel b l)) (sym s.chain)
      (yields (at_front-Lists [] b l s tt (omega arith)))
add-Lists [] (y ∷ ys) b fuel l s between room small =
    let front = at_front-Lists (y ∷ ys) b l s between.above small in
    let first : ltb b y ≡ true = ground (arith, between.above.0) in
    subst (λ o. Yields (Lists (b ∷ y ∷ ys)) (add_from o fuel b l)) (sym s.chain.0)
      (rw first (yields front))
add-Lists (x ∷ xs) ys b fuel l s between room small =
    let later : ltb b x ≡ false = ground (arith, between.below.0) in
    let found =
      insertion_point-Joined xs ys fuel x b l.next s.chain.1 between.rising.1 between.below.1
        between.above between.below.0 (omega arith) in
    subst (λ o. Yields (Lists (x ∷ xs ++ b ∷ ys)) (add_from o fuel b l)) (sym s.chain.0)
      (rw later (
        Yields-bind found (λ c j. yields (record {
          chain = (s.chain.0, j.chain);
          counted = omega (arith, s.counted, length-insert (x ∷ xs) ys b);
        }))))
