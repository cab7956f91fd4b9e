-- ===== src/Kernel/Message/Chain.antt =====
-- Linked lists in the pool.
use os_porting.Base.{
  put, put_self, put-other, ℕ, ◌≡◌, ◌≢◌, ◌∙◌, refl, sym, ap, Option, none, some, List, [], ◌∷◌,
  ◌++◌,
}
use os_porting.Kernel.Message.{Message, set_next}

abbrev pub Pool : Type 0
Pool = ℕ → Message

-- Following `next` from a node, or NULL, visits these nodes and ends at NULL.
unfoldable pub Chain : Pool → Option ℕ → List ℕ → Type 0
Chain pool from [] = from ≡ none
Chain pool from (i ∷ is) = (from ≡ some i) × Chain pool (pool i).next is

unfoldable pub Away : ℕ → List ℕ → Type 0
Away i [] = Unit
Away i (j ∷ js) = (j ≢ i) × Away i js

unfoldable pub Distinct : List ℕ → Type 0
Distinct [] = Unit
Distinct (i ∷ is) = Away i is × Distinct is

unfoldable pub last : List ℕ → Option ℕ
last [] = none
last (i ∷ []) = some i
last (i ∷ j ∷ js) = last (j ∷ js)

pub Chain-put :
    (is : List ℕ) (pool : Pool) (from : Option ℕ) (i : ℕ) (v : Message)
    → Away i is
    → Chain pool from is
    → Chain (put pool i v) from is
unfolding Chain Away
Chain-put [] pool from i v away c = c
Chain-put (j ∷ js) pool from i v (ne, away) (e, c) =
    (e, rw (put-other pool v ne) (Chain-put js pool (pool j).next i v away c))

pub Away-append : (i : ℕ) (js : List ℕ) (k : ℕ) → Away i js → k ≢ i → Away i (js ++ k ∷ [])
unfolding Away
Away-append i [] k away ne = (ne, away)
Away-append i (j ∷ js) k (e, away) ne = (e, Away-append i js k away ne)

pub Distinct-append : (is : List ℕ) (k : ℕ) → Distinct is → Away k is → Distinct (is ++ k ∷ [])
unfolding Distinct Away
Distinct-append [] k d away = (away, d)
Distinct-append (i ∷ is) k (apart, d) (ne, away) =
    (Away-append i is k apart (λ e. ne (sym e)), Distinct-append is k d away)

last-Away : (is : List ℕ) (i t : ℕ) → Away i is → last is ≡ some t → t ≢ i
unfolding Away last
last-Away [] i t away e = cc
last-Away (j ∷ []) i t (ne, away) e = let same : j ≡ t = cc in λ at. ne (same ∙ at)
last-Away (j ∷ k ∷ ks) i t (ne, away) e = last-Away (k ∷ ks) i t away e

pub last-append : (is : List ℕ) (i : ℕ) → last (is ++ i ∷ []) ≡ some i
unfolding last
last-append [] i = refl
last-append (j ∷ []) i = refl
last-append (j ∷ k ∷ ks) i = last-append (k ∷ ks) i

pub last-some : (i : ℕ) (is : List ℕ) → (t : ℕ) × (last (i ∷ is) ≡ some t)
unfolding last
last-some i [] = (i, refl)
last-some i (j ∷ js) = last-some j js

pub Chain-link :
    (is : List ℕ) (pool : Pool) (from : Option ℕ) (i t : ℕ)
    → Distinct is
    → Away i is
    → Chain pool from is
    → (pool i).next ≡ none
    → last is ≡ some t
    → Chain (put pool t (set_next (some i) (pool t))) from (is ++ i ∷ [])
unfolding Chain Away Distinct last
Chain-link [] pool from i t d away c free e = absurd cc
Chain-link (j ∷ []) pool from i t d (ne, away) (h, c) free e =
    let same : j ≡ t = cc in
    rw (← same) (
      h,
      (
        ap (λ x. x.next) (put_self pool j (set_next (some i) (pool j))),
        ap (λ x. x.next) (put-other pool (set_next (some i) (pool j)) (λ e. ne (sym e))) ∙ free,
      ),
    )
Chain-link (j ∷ k ∷ ks) pool from i t (apart, d) (ne, away) (h, c) free e =
    let other : j ≢ t = λ same. last-Away (k ∷ ks) j t apart e (sym same) in
    (
      h,
      rw (put-other pool (set_next (some i) (pool t)) other)
          (Chain-link (k ∷ ks) pool (pool j).next i t d away c free e),
    )

-- The place of every node: `none` for the free list, or the PID of a queue.
abbrev pub Home : Type 0
Home = ℕ → Option ℕ

unfoldable pub AllAt : Home → Option ℕ → List ℕ → Type 0
AllAt home h [] = Unit
AllAt home h (i ∷ is) = (home i ≡ h) × AllAt home h is

pub AllAt-Away :
    (home : Home) (h : Option ℕ) (i : ℕ) (is : List ℕ) → home i ≢ h → AllAt home h is → Away i is
unfolding AllAt Away
AllAt-Away home h i [] ne all = tt
AllAt-Away home h i (j ∷ js) ne (e, all) =
    (λ same. ne (ap home (sym same) ∙ e), AllAt-Away home h i js ne all)

pub AllAt-put :
    (home : Home) (h k : Option ℕ) (i : ℕ) (is : List ℕ)
    → Away i is
    → AllAt home h is
    → AllAt (put home i k) h is
unfolding AllAt Away
AllAt-put home h k i [] away all = tt
AllAt-put home h k i (j ∷ js) (ne, away) (e, all) =
    (put-other home k ne ∙ e, AllAt-put home h k i js away all)

pub AllAt-append :
    (home : Home) (h : Option ℕ) (is : List ℕ) (i : ℕ)
    → AllAt home h is
    → home i ≡ h
    → AllAt home h (is ++ i ∷ [])
unfolding AllAt
AllAt-append home h [] i all e = (e, tt)
AllAt-append home h (j ∷ js) i (e', all) e = (e', AllAt-append home h js i all e)

pub AllAt-last :
    (home : Home) (h : Option ℕ) (is : List ℕ) (t : ℕ)
    → AllAt home h is
    → last is ≡ some t
    → home t ≡ h
unfolding AllAt last
AllAt-last home h [] t all e = absurd cc
AllAt-last home h (j ∷ []) t (e', all) e = cc
AllAt-last home h (j ∷ k ∷ ks) t (e', all) e = AllAt-last home h (k ∷ ks) t all e
