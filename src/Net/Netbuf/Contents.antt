-- ===== src/Net/Netbuf/Contents.antt =====
-- What the calls on a netbuf do to the bytes that it holds.
use os_porting.Base.{
  ℕ, ◌+◌, ◌-◌, ◌≤◌, ◌≡◌, ◌∙◌, ap₂, refl, sym, arith, inl, inr, Bool, true, false, Option, some,
  none, leb, if◌then◌else◌, List, ◌++◌, length, take, drop, Bool-cases,
}
use os_porting.Libc.{
  Memory, memcpy, bytes_at, AreDisjoint, bytes_at-memcpy, bytes_at-memcpy_apart, bytes_at-append,
  length-bytes_at, take-bytes_at, drop-bytes_at,
}
use os_porting.Net.Netbuf.{Netbuf, pull, trim, copy_in}
use os_porting.Net.Netbuf.Valid.{
  IsValid, front_room, back_room, pull_ok, trim_ok, pull_refused, trim_refused, copy_in_ok,
  copy_in_refused,
}

-- A netbuf as a client sees it: room in front, the bytes, room behind.
pub record View : Type 0 where
  pub front : ℕ
  pub bytes : List ℕ
  pub back : ℕ

abbrev pub view : Memory → Netbuf → View
view m b = record { front = front_room b; bytes = bytes_at m b.data_ptr b.len; back = back_room b }

-- What stripping from the front or the back, and appending, promise; `false` is a refusal.
abbrev pub strip_front : ℕ → View → Bool × View
strip_front n v =
    if leb n (length v.bytes)
    then (true, record v { front = v.front + n; bytes = drop n v.bytes })
    else (false, v)

abbrev pub strip_back : ℕ → View → Bool × View
strip_back n v =
    if leb n (length v.bytes)
    then (true, record v { bytes = take (length v.bytes - n) v.bytes; back = v.back + n })
    else (false, v)

abbrev pub append : List ℕ → View → Bool × View
append xs v =
    if leb (length xs) v.back
    then (true, record v { bytes = v.bytes ++ xs; back = v.back - length xs })
    else (false, v)

abbrev pub is_some : Option ℕ → Bool
is_some none = false
is_some (some a) = true

view-eq :
    {f f' k k' : ℕ} {xs xs' : List ℕ}
    → f ≡ f'
    → xs ≡ xs'
    → k ≡ k'
    → ◌≡◌ {A = Bool × View}
        (true, record { front = f; bytes = xs; back = k })
        (true, record { front = f'; bytes = xs'; back = k' })
view-eq e x k = rw (e, x, k) refl

-- `netbuf_pull` of a valid buffer strips bytes from the front, and refuses when there are too few.
pub pull_refines :
    (n : ℕ) {b : Netbuf} (m : Memory)
    → IsValid b
    → (is_some (pull false n b).0, view m (pull false n b).1) ≡ strip_front n (view m b)
pull_refines n {b} m v = elim (Bool-cases (leb n b.len)) [
  | inl le ↦
      rw (pull_ok n v (ground arith), length-bytes_at m b.data_ptr b.len, le)
        (view-eq (omega (arith, v.front)) (sym (drop-bytes_at m b.data_ptr b.len n (ground arith)))
          (ground (arith, v.back)))
  | inr gt ↦ rw (pull_refused n v (ground arith), length-bytes_at m b.data_ptr b.len, gt) refl
]

-- `netbuf_trim` of a valid buffer strips bytes from the back, and refuses when there are too few.
pub trim_refines :
    (n : ℕ) {b : Netbuf} (m : Memory)
    → IsValid b
    → ((trim false n b).0, view m (trim false n b).1) ≡ strip_back n (view m b)
trim_refines n {b} m v = elim (Bool-cases (leb n b.len)) [
  | inl le ↦
      rw (trim_ok n v (ground arith), length-bytes_at m b.data_ptr b.len, le)
        (view-eq refl (sym (take-bytes_at m b.data_ptr b.len (b.len - n) (omega arith)))
          (ground (arith, v.back)))
  | inr gt ↦ rw (trim_refused n v (ground arith), length-bytes_at m b.data_ptr b.len, gt) refl
]

-- Bytes copied right behind a range extend it.
bytes_at-memcpy_behind :
    (n src at k : ℕ) (m : Memory)
    → AreDisjoint (at + k) n src n
    → bytes_at (memcpy n (at + k) src m) at (k + n) ≡ bytes_at m at k ++ bytes_at m src n
bytes_at-memcpy_behind n src at k m apart =
    bytes_at-append (memcpy n (at + k) src m) at k n
    ∙ ap₂ (λ xs ys. xs ++ ys) (bytes_at-memcpy_apart n (at + k) src at k m (inr (omega arith)))
        (bytes_at-memcpy n (at + k) src m apart)

-- `netbuf_copy_in` of a valid buffer appends the bytes at `src`, which lie outside the buffer, and
-- refuses when the tailroom is too small.
pub copy_in_refines :
    (n src : ℕ) {b : Netbuf} (m : Memory)
    → IsValid b
    → AreDisjoint b.buffer_start b.capacity src n
    → let (done, c, w) = copy_in false src n b m in
      (done, view w c) ≡ append (bytes_at m src n) (view m b)
copy_in_refines n src {b} m v apart = elim (Bool-cases (leb n (back_room b))) [
  | inl le ↦
      let inside : n ≤ back_room b = ground arith in
      let apart' : AreDisjoint (b.data_ptr + b.len) n src n = ground (arith, v.front, v.back) in
      rw (copy_in_ok n v src m inside, length-bytes_at m src n, le)
        (view-eq refl (bytes_at-memcpy_behind n src b.data_ptr b.len m apart')
          (omega (arith, v.back)))
  | inr gt ↦ rw (copy_in_refused n v src m (ground arith), length-bytes_at m src n, gt) refl
]
