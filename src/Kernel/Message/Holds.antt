-- ===== src/Kernel/Message/Holds.antt =====
-- The whole of the state against the letters of every queue.
use os_porting.Base.{
  put, put_self, ◌<◌, ℕ, suc, ◌+◌, ◌≡◌, ◌≢◌, ◌∙◌, ap, subst, arith, Bool, true, false, none, some,
  List, [], ◌∷◌, ◌++◌, ◌==◌, if◌then◌else◌, length, inl, inr, Bool-cases,
}
use os_porting.Kernel.Process.Table.{Table}
use os_porting.Kernel.WaitQueue.{WaitQueue, wake, block}
use os_porting.Kernel.Message.{
  queue_total, Message, Post, link_after, head_after, put_queue, join, wake_receiver,
  block_receiver,
}
use os_porting.Kernel.Message.Chain.{Chain, Distinct, Chain-put, Home, AllAt, AllAt-Away, AllAt-put}
use os_porting.Kernel.Message.Mail.{
  Letter, letter, Line, Line-put, Line-link, link-elsewhere, link-free,
}

-- `spare` nodes are free, and the queue of each PID below 256 holds the letters `mail` has for
-- it. No node is in two places.
pub record Holds (m : Post) (spare : ℕ) (mail : ℕ → List Letter) : Type 0 where
  pub free : List ℕ
  pub lines : ℕ → List ℕ
  pub home : Home
  pub free_linked : Chain m.pool m.free_messages free
  pub spares : length free ≡ spare
  pub free_distinct : Distinct free
  pub free_placed : AllAt home none free
  pub queue : (p : ℕ) → p < queue_total → Line m.pool (m.queues p) home p (lines p) (mail p)

-- The counters and the process table do not matter.
pub Holds-counts :
    {m : Post} {spare : ℕ} {mail : ℕ → List Letter} (a b c d e : ℕ) (t : Table)
    → Holds m spare mail
    → Holds
        (record m {
          next_msg_id = a;
          tick_counter = b;
          total_sent = c;
          total_received = d;
          total_bytes = e;
          table = t;
        })
        spare
        mail
Holds-counts a b c d e t h = record {
  free = h.free;
  lines = h.lines;
  home = h.home;
  free_linked = h.free_linked;
  spares = h.spares;
  free_distinct = h.free_distinct;
  free_placed = h.free_placed;
  queue = h.queue;
}

-- A family over all numbers, one of which is apart.
pub by_place :
    (P : ℕ → Bool → Type 0) (p : ℕ)
    → P p true
    → ((q : ℕ) → q ≢ p → P q false)
    → (q : ℕ) → P q (q == p)
by_place P p here there q = elim (Bool-cases (q == p)) [
  | inl e ↦ let same : p ≡ q = ground arith in rw e (subst (λ r. P r true) same here)
  | inr e ↦ rw e (there q (λ same. ground arith))
]

-- Neither do the processes that wait.
Holds-waiters :
    {m : Post} {spare : ℕ} {mail : ℕ → List Letter} (w : WaitQueue) (p : ℕ)
    → Holds m spare mail
    → Holds (put_queue p (record (m.queues p) { waiters = w }) m) spare mail
Holds-waiters {m} {mail = mail} w p h = record {
  free = h.free;
  lines = h.lines;
  home = h.home;
  free_linked = h.free_linked;
  spares = h.spares;
  free_distinct = h.free_distinct;
  free_placed = h.free_placed;
  queue =
      by_place
        (λ q b.
          q < queue_total
          → Line m.pool (if b then record (m.queues p) { waiters = w } else m.queues q) h.home q
              (h.lines q) (mail q))
        p
        (λ lt.
          let l = h.queue p lt in
          record {
            linked = l.linked;
            tail_at = l.tail_at;
            counted = l.counted;
            distinct = l.distinct;
            placed = l.placed;
            held = l.held;
          })
        λ q ne. h.queue q;
}

pub wake_receiver-Holds :
    (p : ℕ) {m : Post} {spare : ℕ} {mail : ℕ → List Letter}
    → Holds m spare mail
    → Holds (wake_receiver p m) spare mail
unfolding wake_receiver
wake_receiver-Holds p {m} h =
    Holds-counts _ _ _ _ _ _ (Holds-waiters (wake (m.queues p).waiters m.table.procs).0 p h)

pub block_receiver-Holds :
    (p : ℕ) {m : Post} {spare : ℕ} {mail : ℕ → List Letter}
    → Holds m spare mail
    → Holds (block_receiver p m) spare mail
unfolding block_receiver
block_receiver-Holds p {m} h =
    Holds-counts _ _ _ _ _ _ (Holds-waiters (block (m.queues p).waiters m.table.procs).0 p h)

-- A free node that is written and joins a queue.
pub join-Holds :
    (dest i : ℕ) (v : Message) {m : Post} {spare : ℕ} {mail : ℕ → List Letter} (fs : List ℕ)
    (h : Holds m (suc spare) mail)
    → dest < queue_total
    → h.free ≡ i ∷ fs
    → v.next ≡ none
    → Holds
        (join dest i (record m { pool = put m.pool i v; free_messages = (m.pool i).next }))
        spare
        (put mail dest (mail dest ++ letter v ∷ []))
unfolding join Chain Distinct AllAt
join-Holds dest i v {m} {spare} {mail} fs h known e end =
    let (first, linked) = rw e at h.free_linked in
    let (apart, distinct) = rw e at h.free_distinct in
    let (at, placed) = rw e at h.free_placed in
    let home = put h.home i (some dest) in
    let pool = put m.pool i v in
    let free_placed = AllAt-put h.home none (some dest) i fs apart placed in
    let old : (q : ℕ) → q < queue_total → Line pool (m.queues q) home q (h.lines q) (mail q) =
      λ q lt. Line-put i v (some dest) (λ same. cc) (h.queue q lt) in
    let l = old dest known in
    let away =
      AllAt-Away h.home (some dest) i (h.lines dest) (λ same. cc) (h.queue dest known).placed in
    let q' = record (m.queues dest) {
      head = head_after (m.queues dest).tail (m.queues dest).head i;
      tail = some i;
      count = (m.queues dest).count + 1;
    } in
    record {
      free = fs;
      lines = put h.lines dest (h.lines dest ++ i ∷ []);
      home = home;
      free_linked =
          link-free i (m.pool i).next fs l free_placed
            (Chain-put fs m.pool (m.pool i).next i v apart linked);
      spares = omega (arith, h.spares, ap length e);
      free_distinct = distinct;
      free_placed = free_placed;
      queue =
          by_place
            (λ q b.
              q < queue_total
              → Line (link_after (m.queues dest).tail i pool) (if b then q' else m.queues q) home q
                  (if b then h.lines dest ++ i ∷ [] else h.lines q)
                  (if b then mail dest ++ letter v ∷ [] else mail q))
            dest
            (λ lt.
              subst
                (λ x.
                  Line (link_after (m.queues dest).tail i pool) q' home dest
                    (h.lines dest ++ i ∷ []) (mail dest ++ letter x ∷ []))
                (put_self m.pool i v)
                (Line-link (h.lines dest) i l away (put_self h.home i (some dest))
                  (ap (λ x. x.next) (put_self m.pool i v) ∙ end)))
            λ q ne lt. link-elsewhere i l ne (old q lt);
    }
