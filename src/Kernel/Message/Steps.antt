-- ===== src/Kernel/Message/Steps.antt =====
-- A letter that is delivered, and one that is taken.
use mathlib.Core.Path.{fun_ext}
use os_porting.Base.{
  put, put_self, ◌<◌, ℕ, suc, ◌-◌, ◌≡◌, ◌∙◌, refl, sym, ap, subst, arith, Option, none, some, List,
  [], ◌∷◌, ◌++◌, if◌then◌else◌, length, drop, take-append,
}
use os_porting.Kernel.Message.{
  queue_total, Message, MsgQueue, Post, set_next, is_missing, empty_message, join, deliver, filled,
  current_pid, alloc_message, unlink, free_message,
}
use os_porting.Kernel.Message.Chain.{
  Pool, Chain, Distinct, last, Chain-put, Home, AllAt, AllAt-Away, AllAt-put,
}
use os_porting.Kernel.Message.Mail.{Letter, letter, Line, Line-put, letters-put}
use os_porting.Kernel.Message.Holds.{Holds, Holds-counts, by_place, join-Holds, wake_receiver-Holds}

-- The letter that `msg_send_flags` sends.
abbrev pub posted : ℕ → List ℕ → ℕ → Post → Letter
posted dest text flags m = record {
  src = current_pid m;
  dest = dest;
  flags = flags;
  id = m.next_msg_id;
  sent_at = m.tick_counter;
  text = text;
}

letter-filled :
    (dest : ℕ) (text : List ℕ) (flags : ℕ) (m : Post) (x : Message)
    → letter (filled dest text flags m x) ≡ posted dest text flags m
letter-filled dest text flags m x =
    ap
      (λ t. record {
        src = current_pid m;
        dest = dest;
        flags = flags;
        id = m.next_msg_id;
        sent_at = m.tick_counter;
        text = t;
      })
      (take-append (length text) text (drop (length text) x.payload) refl)

put-put : {A : Type 0} (f : ℕ → A) (i : ℕ) (v w : A) → put (put f i v) i w ≡ put f i w
put-put f i v w = fun_ext λ q. ground arith

uncons : {n : ℕ} (xs : List ℕ) → length xs ≡ suc n → (i : ℕ) × (is : List ℕ) × (xs ≡ i ∷ is)
uncons [] e = absurd (omega arith)
uncons (i ∷ is) e = (i, is, refl)

alloc_lem :
    (m : Post) {i : ℕ}
    → m.free_messages ≡ some i
    → alloc_message m ≡ (
      some i,
      record m { free_messages = (m.pool i).next; pool = put m.pool i (set_next none (m.pool i)) },
    )
unfolding alloc_message
alloc_lem m {i} first = rw first refl

-- The free node `i` gets the letter at the end of the queue.
post-Holds :
    (dest : ℕ) (text : List ℕ) (flags i : ℕ) (fs : List ℕ) {m : Post} {spare : ℕ}
    {mail : ℕ → List Letter} (h : Holds m (suc spare) mail)
    → dest < queue_total
    → h.free ≡ i ∷ fs
    → Holds
        (deliver dest text flags i (record m {
          free_messages = (m.pool i).next;
          pool = put m.pool i (set_next none (m.pool i));
        }))
        spare
        (put mail dest (mail dest ++ posted dest text flags m ∷ []))
unfolding deliver join
post-Holds dest text flags i fs {m} {spare} {mail} h known e =
    let blank = set_next none (m.pool i) in
    let v = filled dest text flags m (put m.pool i blank i) in
    let joined =
      subst
        (λ pool.
          Holds (join dest i (record m { pool = pool; free_messages = (m.pool i).next })) spare
            (put mail dest (mail dest ++ letter v ∷ [])))
        (sym (put-put m.pool i blank v)) (join-Holds dest i v fs h known e refl) in
    let sent =
      subst
        (λ x.
          Holds
            (join dest i
              (record m { pool = put (put m.pool i blank) i v; free_messages = (m.pool i).next }))
            spare (put mail dest (mail dest ++ x ∷ [])))
        (letter-filled dest text flags m (put m.pool i blank i)) joined in
    wake_receiver-Holds dest (Holds-counts _ _ _ _ _ _ sent)

-- A node is free, and the letter is put into it at the end of the queue.
pub deliver-Holds :
    (dest : ℕ) (text : List ℕ) (flags : ℕ) {m : Post} {spare : ℕ} {mail : ℕ → List Letter}
    → dest < queue_total
    → Holds m (suc spare) mail
    → (i : ℕ) × ((alloc_message m).0 ≡ some i)
      × Holds
          (deliver dest text flags i (alloc_message m).1)
          spare
          (put mail dest (mail dest ++ posted dest text flags m ∷ []))
unfolding Chain
deliver-Holds dest text flags {m} {spare} {mail} known h =
    let (i, fs, e) = uncons h.free h.spares in
    let (first, _) = rw e at h.free_linked in
    rw (alloc_lem m first) (i, refl, post-Holds dest text flags i fs h known e)

unlink-last :
    (pool : Pool) (i : ℕ) (is : List ℕ) (tail next : Option ℕ)
    → Chain pool next is
    → tail ≡ last (i ∷ is)
    → (if is_missing next then none else tail) ≡ last is
unfolding Chain last
unlink-last pool i [] tail next e at = rw e refl
unlink-last pool i (j ∷ js) tail next (e, _) at = rw e at

-- The first node leaves the queue.
Line-unlink :
    {pool : Pool} {q : MsgQueue} {home : Home} {p i : ℕ} {x : Letter} {xs : List Letter}
    (is : List ℕ) (v : Message)
    → Line pool q home p (i ∷ is) (x ∷ xs)
    → Line
        (put pool i v)
        (record q {
          head = (pool i).next;
          tail = if is_missing (pool i).next then none else q.tail;
          count = q.count - 1;
        })
        (put home i none)
        p
        is
        xs
unfolding Chain Distinct AllAt
Line-unlink {pool} {q} {home} {p} {i} is v l =
    let (apart, distinct) = l.distinct in
    let (_, linked) = l.linked in
    let (_, placed) = l.placed in
    record {
      linked = Chain-put is pool (pool i).next i v apart linked;
      tail_at = unlink-last pool i is q.tail (pool i).next linked l.tail_at;
      counted = omega (arith, l.counted);
      distinct = distinct;
      placed = AllAt-put home (some p) none i is apart placed;
      held = letters-put pool i v is apart ∙ cc;
    }

unlink_front :
    (p i : ℕ) (is : List ℕ) {m : Post} {spare : ℕ} {mail : ℕ → List Letter} {x : Letter}
    {xs : List Letter} (h : Holds m spare mail)
    → Line m.pool (m.queues p) h.home p (i ∷ is) (x ∷ xs)
    → Holds (unlink p i m) (suc spare) (put mail p xs)
unfolding unlink free_message Chain Distinct AllAt
unlink_front p i is {m} {spare} {mail} {x} {xs} h l =
    let v = set_next m.free_messages empty_message in
    let at : h.home i ≡ some p = l.placed.0 in
    let away = AllAt-Away h.home none i h.free (λ same. cc) h.free_placed in
    let q' = record (m.queues p) {
      head = (m.pool i).next;
      tail = if is_missing (m.pool i).next then none else (m.queues p).tail;
      count = (m.queues p).count - 1;
    } in
    record {
      free = i ∷ h.free;
      lines = put h.lines p is;
      home = put h.home i none;
      free_linked = (
        refl,
        subst (λ x. Chain (put m.pool i v) x.next h.free) (sym (put_self m.pool i v))
            (Chain-put h.free m.pool m.free_messages i v away h.free_linked),
      );
      spares = ap suc h.spares;
      free_distinct = (away, h.free_distinct);
      free_placed =
          (put_self h.home i none, AllAt-put h.home none none i h.free away h.free_placed);
      queue =
          by_place
            (λ q b.
              q < queue_total
              → Line (put m.pool i v) (if b then q' else m.queues q) (put h.home i none) q
                  (if b then is else h.lines q) (if b then xs else mail q))
            p (λ lt. Line-unlink is v l)
            λ q ne lt. Line-put i v none (λ same. ne cc) (h.queue q lt);
    }

-- The first letter of a queue is in the node at its head, which `unlink` frees.
pub unlink-Holds :
    (p : ℕ) {m : Post} {spare : ℕ} {mail : ℕ → List Letter} {x : Letter} {xs : List Letter}
    → p < queue_total
    → Holds m spare mail
    → mail p ≡ x ∷ xs
    → (i : ℕ) × ((m.queues p).head ≡ some i)
      × (letter (m.pool i) ≡ x)
      × Holds (unlink p i m) (suc spare) (put mail p xs)
unfolding Chain
unlink-Holds p {m} {spare} {mail} {x} {xs} known h some_left =
    front (h.lines p) (rw some_left at (h.queue p known))
  where
    front :
        (is : List ℕ)
        → Line m.pool (m.queues p) h.home p is (x ∷ xs)
        → (i : ℕ) × ((m.queues p).head ≡ some i)
          × (letter (m.pool i) ≡ x)
          × Holds (unlink p i m) (suc spare) (put mail p xs)
    front [] l = absurd cc
    front (i ∷ is) l = (i, l.linked.0, cc, unlink_front p i is h l)
