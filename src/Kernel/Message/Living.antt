-- ===== src/Kernel/Message/Living.antt =====
-- Waking receivers does not change which processes live, as long as no dead process waits.
use os_porting.Base.{
  put, ℕ, zero, suc, ◌+◌, ◌≡◌, ◌∙◌, refl, sym, subst, ap, arith, Bool, true, false, not, Option,
  none, some, List, [], ◌∷◌, ◌==◌, ltb, leb, ◌&&◌, if◌then◌else◌, get_or, set, length, inl, inr,
  Bool-cases,
}
use os_porting.Kernel.Process.{ProcState, Procs, set_state}
use os_porting.Kernel.Process.Table.{get_by_pid, pid_loop, same_state, is_invalid}
use os_porting.Kernel.WaitQueue.{WaitQueue, shift, dequeue, wake, make_ready}
use os_porting.Kernel.Message.{
  Post, MsgError, queue_total, queue_size, max_size, is_missing, send_flags, send_node,
  alloc_message, deliver, join, wake_receiver, filled, u32, u64,
}
use os_porting.Kernel.Message.Calls.{is_alive}

abbrev pub living : ProcState → Bool
living s = not (is_invalid s) && not (same_state s ProcState.terminated)

-- The same processes exist and live.
abbrev pub SameLife : (ℕ → ProcState) → (ℕ → ProcState) → Type 0
SameLife s s' = (i : ℕ) → (is_invalid (s' i) ≡ is_invalid (s i)) × (living (s' i) ≡ living (s i))

-- Every process in an array of waiting ones lives.
abbrev pub AllLive : (ℕ → ProcState) → List (Option ℕ) → Type 0
AllLive s slots = (i c : ℕ) → get_or slots i none ≡ some c → living (s c) ≡ true

-- No dead process waits for a message.
abbrev pub WaitersLive : Post → Type 0
WaitersLive m = (p : ℕ) → AllLive m.table.procs.state (m.queues p).waiters.slots

set-AllLive :
    (s : ℕ → ProcState) (xs : List (Option ℕ)) (j : ℕ) (v : Option ℕ)
    → AllLive s xs
    → ((c : ℕ) → v ≡ some c → living (s c) ≡ true)
    → AllLive s (set xs j v)
set-AllLive s [] j v all one i c e = all i c e
set-AllLive s (x ∷ xs) zero v all one zero c e = one c e
set-AllLive s (x ∷ xs) zero v all one (suc i) c e = all (suc i) c e
set-AllLive s (x ∷ xs) (suc j) v all one zero c e = all zero c e
set-AllLive s (x ∷ xs) (suc j) v all one (suc i) c e =
    set-AllLive s xs j v (λ k d u. all (suc k) d u) one i c e

shift-AllLive :
    (s : ℕ → ProcState) (n i : ℕ) (xs : List (Option ℕ)) → AllLive s xs → AllLive s (shift n i xs)
unfolding shift
shift-AllLive s zero i xs all = all
shift-AllLive s (suc n) i xs all =
    shift-AllLive s n (suc i) _
      (set-AllLive s xs i (get_or xs (suc i) none) all (λ c e. all (suc i) c e))

dequeue-AllLive :
    (s : ℕ → ProcState) (q : WaitQueue) → AllLive s q.slots → AllLive s (dequeue q).1.slots
unfolding dequeue
dequeue-AllLive s q all =
    set-AllLive s _ _ none (shift-AllLive s _ 0 q.slots all) (λ c e. absurd cc)

exists_lem : (s : ProcState) → living s ≡ true → is_invalid s ≡ false
exists_lem ProcState.invalid e = absurd cc
exists_lem ProcState.ready e = refl
exists_lem ProcState.running e = refl
exists_lem ProcState.blocked e = refl
exists_lem ProcState.terminated e = refl

make_ready-SameLife :
    (ps : Procs) (o : Option ℕ)
    → ((c : ℕ) → o ≡ some c → living (ps.state c) ≡ true)
    → SameLife ps.state (make_ready ps o).state
unfolding set_state
make_ready-SameLife ps none alive i = (refl, refl)
make_ready-SameLife ps (some c) alive i = elim (Bool-cases (i == c)) [
  | inl e ↦
      let here : c ≡ i = ground arith in
      let lives : living (ps.state i) ≡ true =
        subst (λ j. living (ps.state j) ≡ true) here (alive c refl) in
      rw e (sym (exists_lem (ps.state i) lives), sym lives)
  | inr e ↦ rw e (refl, refl)
]

wake-Living :
    (q : WaitQueue) (ps : Procs)
    → AllLive ps.state q.slots
    → SameLife ps.state (wake q ps).1.state × AllLive ps.state (wake q ps).0.slots
unfolding wake dequeue
wake-Living q ps all = elim (Bool-cases (ltb 0 q.count)) [
  | inl some_waiting ↦
      rw some_waiting
        (make_ready-SameLife ps (get_or q.slots 0 none) (all 0), dequeue-AllLive ps.state q all)
  | inr no_one ↦ rw no_one ((λ i. (refl, refl)), all)
]

-- What keeps who lives, and that no dead process waits.
pub record Keeps (m m' : Post) : Type 0 where
  pub states : SameLife m.table.procs.state m'.table.procs.state
  pub pcbs : m'.table.pcb ≡ m.table.pcb
  pub waiters : WaitersLive m'

AllLive-SameLife :
    (s s' : ℕ → ProcState) (slots : List (Option ℕ))
    → SameLife s s'
    → AllLive s slots
    → AllLive s' slots
AllLive-SameLife s s' slots same all i c e = (same c).1 ∙ all i c e

wake_receiver-Keeps : (p : ℕ) (m : Post) → WaitersLive m → Keeps m (wake_receiver p m)
unfolding wake_receiver
wake_receiver-Keeps p m live =
    let (same, rest) = wake-Living (m.queues p).waiters m.table.procs (live p) in
    record {
      states = same;
      pcbs = refl;
      waiters = λ q. elim (Bool-cases (q == p)) [
        | inl here ↦ rw here (AllLive-SameLife _ _ _ same rest)
        | inr apart ↦ rw apart (AllLive-SameLife _ _ _ same (live q))
      ];
    }

join-WaitersLive : (p i : ℕ) (m : Post) → WaitersLive m → WaitersLive (join p i m)
unfolding join
join-WaitersLive p i m live q = elim (Bool-cases (q == p)) [
  | inl here ↦ rw here (live p)
  | inr apart ↦ rw apart (live q)
]

deliver-Keeps :
    (dest : ℕ) (text : List ℕ) (flags i : ℕ) (m : Post)
    → WaitersLive m
    → Keeps m (deliver dest text flags i m)
unfolding deliver join
deliver-Keeps dest text flags i m live =
    let m1 = record m {
      pool = put m.pool i (filled dest text flags m (m.pool i));
      next_msg_id = u32 (m.next_msg_id + 1);
      tick_counter = u64 (m.tick_counter + 1);
    } in
    let m2 = join dest i m1 in
    let m3 = record m2 {
      total_sent = u64 (m2.total_sent + 1);
      total_bytes = u64 (m2.total_bytes + length text);
    } in
    let k = wake_receiver-Keeps dest m3 (join-WaitersLive dest i m1 live) in
    record { states = k.states; pcbs = k.pcbs; waiters = k.waiters }

send_node-Keeps :
    (dest : ℕ) (text : List ℕ) (flags : ℕ) (o : Option ℕ) (m : Post)
    → WaitersLive m
    → Keeps m (send_node dest text flags (o, m)).1
send_node-Keeps dest text flags none m live = record {
  states = λ i. (refl, refl);
  pcbs = refl;
  waiters = live;
}
send_node-Keeps dest text flags (some i) m live = deliver-Keeps dest text flags i m live

alloc_message-Keeps :
    (o : Option ℕ) (m : Post) → m.free_messages ≡ o → WaitersLive m → Keeps m (alloc_message m).1
unfolding alloc_message
alloc_message-Keeps none m e live =
    rw e (record { states = λ i. (refl, refl); pcbs = refl; waiters = live })
alloc_message-Keeps (some i) m e live =
    rw e (record { states = λ i. (refl, refl); pcbs = refl; waiters = live })

pub Keeps-after : {a b c : Post} → Keeps a b → Keeps b c → Keeps a c
Keeps-after k l = record {
  states = λ i. ((l.states i).0 ∙ (k.states i).0, (l.states i).1 ∙ (k.states i).1);
  pcbs = l.pcbs ∙ k.pcbs;
  waiters = l.waiters;
}

Keeps-unless :
    (m : Post) (refuses : Bool) (err : Option MsgError) (r : Option MsgError × Post)
    → WaitersLive m
    → Keeps m r.1
    → Keeps m (if refuses then (err, m) else r).1
Keeps-unless m true err r live k = record {
  states = λ i. (refl, refl);
  pcbs = refl;
  waiters = live;
}
Keeps-unless m false err r live k = k

-- Sending, whatever it answers.
pub send_flags-Keeps :
    (null : Bool) (dest : ℕ) (text : List ℕ) (flags : ℕ) (m : Post)
    → WaitersLive m
    → Keeps m (send_flags null dest text flags m).1
unfolding send_flags
send_flags-Keeps null dest text flags m live =
    let first = alloc_message-Keeps m.free_messages m refl live in
    let (o, m₁) = alloc_message m in
    let sent = Keeps-after first (send_node-Keeps dest text flags o m₁ first.waiters) in
    Keeps-unless m null _ _ live (
      Keeps-unless m (ltb max_size (length text)) _ _ live (
        Keeps-unless m (is_missing (get_by_pid dest m.table)) _ _ live (
          Keeps-unless m (leb queue_total dest) _ _ live
            (Keeps-unless m (leb queue_size (m.queues dest).count) _ _ live sent))))

pid_loop-Keeps :
    (n i pid : ℕ) {m m' : Post} → Keeps m m' → pid_loop n i pid m'.table ≡ pid_loop n i pid m.table
unfolding pid_loop
pid_loop-Keeps zero i pid k = refl
pid_loop-Keeps (suc n) i pid k = rw (pid_loop-Keeps n (i + 1) pid k, (k.states i).0, k.pcbs) refl

get_by_pid-Keeps :
    (pid : ℕ) {m m' : Post} → Keeps m m' → get_by_pid pid m'.table ≡ get_by_pid pid m.table
unfolding get_by_pid
get_by_pid-Keeps pid k = ap (λ o. if pid == 0 then none else o) (pid_loop-Keeps _ 0 pid k)

-- Whether the process with a PID exists and lives.
abbrev pub has_receiver : ℕ → Post → Bool
has_receiver pid m = is_alive (get_by_pid pid m.table) m.table

is_alive-Keeps :
    (o : Option ℕ) {m m' : Post} → Keeps m m' → is_alive o m'.table ≡ is_alive o m.table
is_alive-Keeps none k = refl
is_alive-Keeps (some c) k = (k.states c).1

pub has_receiver-Keeps :
    (pid : ℕ) {m m' : Post} → Keeps m m' → has_receiver pid m' ≡ has_receiver pid m
has_receiver-Keeps pid {m} {m'} k =
    ap (λ o. is_alive o m'.table) (get_by_pid-Keeps pid k)
    ∙ is_alive-Keeps (get_by_pid pid m.table) k
