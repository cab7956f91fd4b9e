-- ===== src/Kernel/Message/Mail.antt =====
-- The queues of messages as lists of letters, and when the pool holds them.
use mathlib.Core.List.{map, map-append}
use os_porting.Base.{
  put, put-other, ℕ, ◌+◌, ◌≡◌, ◌≢◌, ◌∙◌, refl, sym, ap, ap₂, arith, Option, none, some, List, [],
  ◌∷◌, ◌++◌, ◌==◌, length, length-append, take, inl, inr, Bool-cases, Option-cases,
}
use os_porting.Kernel.Message.{Message, MsgQueue, set_next, link_after, head_after}
use os_porting.Kernel.Message.Chain.{
  Pool, Chain, Away, Distinct, last, Chain-put, Chain-link, Distinct-append, last-append, last-some,
  Home, AllAt, AllAt-Away, AllAt-put, AllAt-append, AllAt-last,
}

-- What a queued message says.
pub record Letter : Type 0 where
  pub src : ℕ
  pub dest : ℕ
  pub flags : ℕ
  pub id : ℕ
  pub sent_at : ℕ
  pub text : List ℕ

abbrev pub letter : Message → Letter
letter x = record {
  src = x.src_pid;
  dest = x.dest_pid;
  flags = x.flags;
  id = x.msg_id;
  sent_at = x.timestamp;
  text = take x.length x.payload;
}

abbrev pub letters : Pool → List ℕ → List Letter
letters pool is = map (λ i. letter (pool i)) is

pub letters-put :
    (pool : Pool) (i : ℕ) (v : Message) (is : List ℕ)
    → Away i is
    → letters (put pool i v) is ≡ letters pool is
unfolding Away
letters-put pool i v [] away = refl
letters-put pool i v (j ∷ js) (ne, away) =
    ap₂ (λ x xs. letter x ∷ xs) (put-other pool v ne) (letters-put pool i v js away)

-- Where a node points is no part of its letter.
letters-set_next :
    (pool : Pool) (t : ℕ) (n : Option ℕ) (is : List ℕ)
    → letters (put pool t (set_next n (pool t))) is ≡ letters pool is
letters-set_next pool t n [] = refl
letters-set_next pool t n (j ∷ js) =
    let same : letter (put pool t (set_next n (pool t)) j) ≡ letter (pool j) =
      elim (Bool-cases (j == t)) [
        | inl e ↦ let at : j ≡ t = ground arith in rw (e, at) refl
        | inr e ↦ rw e refl
      ] in
    ap₂ (λ x xs. x ∷ xs) same (letters-set_next pool t n js)

-- The nodes `is` are the queue of PID `p`, and hold the letters `ls`.
pub record Line (pool : Pool) (q : MsgQueue) (home : Home) (p : ℕ) (is : List ℕ) (ls : List Letter)
    : Type 0 where
  pub linked : Chain pool q.head is
  pub tail_at : q.tail ≡ last is
  pub counted : q.count ≡ length is
  pub distinct : Distinct is
  pub placed : AllAt home (some p) is
  pub held : letters pool is ≡ ls

-- A write to a node that is not in the queue.
pub Line-put :
    {pool : Pool} {q : MsgQueue} {home : Home} {p : ℕ} {is : List ℕ} {ls : List Letter} (i : ℕ)
    (v : Message) (h : Option ℕ)
    → home i ≢ some p
    → Line pool q home p is ls
    → Line (put pool i v) q (put home i h) p is ls
Line-put {pool} {q} {home} {p} {is} i v h ne l =
    let away = AllAt-Away home (some p) i is ne l.placed in
    record {
      linked = Chain-put is pool q.head i v away l.linked;
      tail_at = l.tail_at;
      counted = l.counted;
      distinct = l.distinct;
      placed = AllAt-put home (some p) h i is away l.placed;
      held = letters-put pool i v is away ∙ l.held;
    }

-- A queue that others are linked to: only the links of other queues change.
pub link-elsewhere :
    {pool : Pool} {q q' : MsgQueue} {home : Home} {p p' : ℕ} {is is' : List ℕ}
    {ls ls' : List Letter} (i : ℕ)
    → Line pool q home p is ls
    → p' ≢ p
    → Line pool q' home p' is' ls'
    → Line (link_after q.tail i pool) q' home p' is' ls'
link-elsewhere {pool} {q} {q'} {home} {p} {p'} {is} {is'} i l ne l' = elim (Option-cases q.tail) [
  | inl none_yet ↦ rw none_yet l'
  | inr (t, e) ↦
      let at : home t ≡ some p = AllAt-last home (some p) is t l.placed (sym l.tail_at ∙ e) in
      let away = AllAt-Away home (some p') t is' (λ same. ne cc) l'.placed in
      rw e (record {
        linked = Chain-put is' pool q'.head t _ away l'.linked;
        tail_at = l'.tail_at;
        counted = l'.counted;
        distinct = l'.distinct;
        placed = l'.placed;
        held = letters-put pool t _ is' away ∙ l'.held;
      })
]

-- `join`: the node `i` is linked to the end of the queue.
pub Line-link :
    {pool : Pool} {q : MsgQueue} {home : Home} {p : ℕ} {ls : List Letter} (is : List ℕ) (i : ℕ)
    → Line pool q home p is ls
    → Away i is
    → home i ≡ some p
    → (pool i).next ≡ none
    → Line
        (link_after q.tail i pool)
        (record q { head = head_after q.tail q.head i; tail = some i; count = q.count + 1 })
        home
        p
        (is ++ i ∷ [])
        (ls ++ letter (pool i) ∷ [])
unfolding Chain Away Distinct AllAt last
Line-link {pool} {q} {home} {p} {ls} [] i l away at end = rw l.tail_at (record {
  linked = (refl, end);
  tail_at = refl;
  counted = omega (arith, l.counted);
  distinct = (tt, tt);
  placed = (at, tt);
  held = ap (λ xs. xs ++ letter (pool i) ∷ []) l.held;
})
Line-link {pool} {q} {home} {p} {ls} (j ∷ js) i l away at end =
    let (t, e) = last-some j js in
    rw (l.tail_at, e)
      (record {
        linked = Chain-link (j ∷ js) pool q.head i t l.distinct away l.linked end e;
        tail_at = sym (last-append (j ∷ js) i);
        counted = omega (arith, l.counted, length-append (j ∷ js) (i ∷ []));
        distinct = Distinct-append (j ∷ js) i l.distinct away;
        placed = AllAt-append home (some p) (j ∷ js) i l.placed at;
        held =
            letters-set_next pool t (some i) ((j ∷ js) ++ i ∷ [])
            ∙ map-append (λ i. letter (pool i)) (j ∷ js) (i ∷ [])
            ∙ ap (λ xs. xs ++ letter (pool i) ∷ []) l.held;
      })

-- Linking to a queue leaves the free list alone.
pub link-free :
    {pool : Pool} {q : MsgQueue} {home : Home} {p : ℕ} {is : List ℕ} {ls : List Letter} (i : ℕ)
    (from : Option ℕ) (fs : List ℕ)
    → Line pool q home p is ls
    → AllAt home none fs
    → Chain pool from fs
    → Chain (link_after q.tail i pool) from fs
link-free {pool} {q} {home} {p} {is} i from fs l placed c = elim (Option-cases q.tail) [
  | inl none_yet ↦ rw none_yet c
  | inr (t, e) ↦
      let at : home t ≡ some p = AllAt-last home (some p) is t l.placed (sym l.tail_at ∙ e) in
      let apart : home t ≢ none = λ same. cc in
      rw e (Chain-put fs pool from t _ (AllAt-Away home none t fs apart placed) c)
]
