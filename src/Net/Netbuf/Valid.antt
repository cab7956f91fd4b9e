-- ===== src/Net/Netbuf/Valid.antt =====
-- The layout of a netbuf: headroom, bytes, tailroom, inside the allocated buffer.
use os_porting.Base.{
  ℕ, ◌+◌, ◌-◌, ◌%◌, ◌≤◌, ◌<◌, ◌^◌, ◌≡◌, ◌↔◌, ◌⊎◌, inl, inr, refl, arith, Bool, true, false, some,
  none, ltb, leb, Bool-cases,
}
use os_porting.Libc.{Memory, memcpy}
use os_porting.Net.Netbuf.{
  Netbuf, max_size, default_headroom, headroom, tailroom, push, pull, put, trim, reset, copy_in,
}

-- The bytes lie in the buffer, and the buffer lies in the address space.
pub record IsValid (b : Netbuf) : Type 0 where
  pub front : b.buffer_start ≤ b.data_ptr
  pub back : b.data_ptr + b.len ≤ b.buffer_start + b.capacity
  pub small : b.capacity ≤ max_size
  pub addressable : b.buffer_start + b.capacity < 2 ^ 64

pub headroom_lem : {b : Netbuf} → IsValid b → headroom b ≡ b.data_ptr - b.buffer_start
unfolding headroom
headroom_lem v = omega (arith, v.front, v.back, v.addressable)

pub tailroom_lem :
    {b : Netbuf} → IsValid b → tailroom b ≡ b.buffer_start + b.capacity - (b.data_ptr + b.len)
unfolding tailroom
tailroom_lem v = omega (arith, headroom_lem v, v.front, v.back, v.addressable)

-- The fields after the calls that succeed.
abbrev pub pushed : ℕ → Netbuf → Netbuf
pushed n b = record b { data_ptr = b.data_ptr - n; len = b.len + n }

abbrev pub pulled : ℕ → Netbuf → Netbuf
pulled n b = record b { data_ptr = b.data_ptr + n; len = b.len - n }

abbrev pub grown : ℕ → Netbuf → Netbuf
grown n b = record b { len = b.len + n }

abbrev pub trimmed : ℕ → Netbuf → Netbuf
trimmed n b = record b { len = b.len - n }

abbrev pub front_room : Netbuf → ℕ
front_room b = b.data_ptr - b.buffer_start

abbrev pub back_room : Netbuf → ℕ
back_room b = b.buffer_start + b.capacity - (b.data_ptr + b.len)

module _ (n : ℕ) {b : Netbuf} (v : IsValid b) where
  pub push_ok : n ≤ front_room b → push false n b ≡ (some (b.data_ptr - n), pushed n b)
  unfolding push
  push_ok le =
      let test : ltb (headroom b) n ≡ false = ground (arith, headroom_lem v) in
      let ptr : (b.data_ptr + 2 ^ 64 - n) % 2 ^ 64 ≡ b.data_ptr - n =
        omega (arith, v.front, v.back, v.addressable) in
      let size : (b.len + n) % 2 ^ 64 ≡ b.len + n = omega (arith, v.front, v.back, v.addressable) in
      rw (test, ptr, size) refl

  pub push_refused : front_room b < n → push false n b ≡ (none, b)
  unfolding push
  push_refused lt =
      let test : ltb (headroom b) n ≡ true = ground (arith, headroom_lem v) in rw test refl

  pub pull_ok : n ≤ b.len → pull false n b ≡ (some (b.data_ptr + n), pulled n b)
  unfolding pull
  pull_ok le =
      let test : ltb b.len n ≡ false = ground arith in
      let ptr : (b.data_ptr + n) % 2 ^ 64 ≡ b.data_ptr + n = omega (arith, v.back, v.addressable) in
      let size : (b.len + 2 ^ 64 - n) % 2 ^ 64 ≡ b.len - n = omega (arith, v.back, v.addressable) in
      rw (test, ptr, size) refl

  pub pull_refused : b.len < n → pull false n b ≡ (none, b)
  unfolding pull
  pull_refused lt = let test : ltb b.len n ≡ true = ground arith in rw test refl

  pub trim_refused : b.len < n → trim false n b ≡ (false, b)
  unfolding trim
  trim_refused lt = let test : ltb b.len n ≡ true = ground arith in rw test refl

  pub put_ok : n ≤ back_room b → put false n b ≡ (some (b.data_ptr + b.len), grown n b)
  unfolding put
  put_ok le =
      let test : ltb (tailroom b) n ≡ false = ground (arith, tailroom_lem v) in
      let size : (b.len + n) % 2 ^ 64 ≡ b.len + n = omega (arith, v.back, v.addressable) in
      rw (test, size) refl

  pub put_refused : back_room b < n → put false n b ≡ (none, b)
  unfolding put
  put_refused lt =
      let test : ltb (tailroom b) n ≡ true = ground (arith, tailroom_lem v) in rw test refl

  pub trim_ok : n ≤ b.len → trim false n b ≡ (true, trimmed n b)
  unfolding trim
  trim_ok le =
      let test : ltb b.len n ≡ false = ground arith in
      let size : (b.len + 2 ^ 64 - n) % 2 ^ 64 ≡ b.len - n = omega (arith, v.back, v.addressable) in
      rw (test, size) refl

  pub copy_in_ok :
      (src : ℕ) (m : Memory)
      → n ≤ back_room b
      → copy_in false src n b m ≡ (true, grown n b, memcpy n (b.data_ptr + b.len) src m)
  unfolding copy_in
  copy_in_ok src m le =
      let test : ltb (tailroom b) n ≡ false = ground (arith, tailroom_lem v) in
      let size : (b.len + n) % 2 ^ 64 ≡ b.len + n = omega (arith, v.back, v.addressable) in
      rw (test, size) refl

  pub copy_in_refused :
      (src : ℕ) (m : Memory) → back_room b < n → copy_in false src n b m ≡ (false, b, m)
  unfolding copy_in
  copy_in_refused src m lt =
      let test : ltb (tailroom b) n ≡ true = ground (arith, tailroom_lem v) in rw test refl

  pub pushed-IsValid : n ≤ front_room b → IsValid (pushed n b)
  pushed-IsValid le = record {
    front = omega (arith, v.front);
    back = omega (arith, v.front, v.back);
    small = v.small;
    addressable = v.addressable;
  }

  pub pulled-IsValid : n ≤ b.len → IsValid (pulled n b)
  pulled-IsValid le = record {
    front = omega (arith, v.front);
    back = omega (arith, v.front, v.back);
    small = v.small;
    addressable = v.addressable;
  }

  pub grown-IsValid : n ≤ back_room b → IsValid (grown n b)
  grown-IsValid le = record {
    front = v.front;
    back = omega (arith, v.front, v.back);
    small = v.small;
    addressable = v.addressable;
  }

-- Whether or not the call is refused, and also with a NULL pointer.
pub push-IsValid : (null : Bool) (n : ℕ) {b : Netbuf} → IsValid b → IsValid (push null n b).1
unfolding push
push-IsValid true n v = v
push-IsValid false n {b} v = elim (Bool-cases (leb n (front_room b))) [
  | inl le ↦ rw (push_ok n v (ground arith)) (pushed-IsValid n v (ground arith))
  | inr gt ↦ rw (push_refused n v (ground arith)) v
]

-- After `netbuf_reset` of a buffer in the address space, the layout holds exactly if the headroom
-- asked for, or else the default headroom of 64 bytes, fits the buffer.
pub reset-IsValid_iff :
    (room : ℕ) {b : Netbuf}
    → IsValid b
    → IsValid (reset false room b) ↔ ((room < b.capacity) ⊎ (default_headroom ≤ b.capacity))
unfolding reset
reset-IsValid_iff room {b} v = elim (Bool-cases (leb b.capacity room)) [
  | inl ge ↦ rw ge (
    (λ w. inr (omega (arith, w.back))),
    (λ which. record {
      front = omega arith;
      back = ground arith;
      small = v.small;
      addressable = v.addressable;
    }),
  )
  | inr lt ↦ rw lt (
    (λ w. inl (ground arith)),
    (λ which. record {
      front = omega arith;
      back = ground arith;
      small = v.small;
      addressable = v.addressable;
    }),
  )
]
