-- ===== src/Kernel/Heap/Edits.antt =====
-- How a write to the headers changes the row of tiles.
use os_porting.Base.{
  ℕ, ◌-◌, ◌%◌, ◌^◌, ◌≤◌, ◌≡◌, ◌≢◌, refl, arith, bit_and, bit_or, Bool, true, false, Option, put,
  put_self, put-other, ◌∙◌,
}
use os_porting.Kernel.Heap.{
  Blocks, set_size, set_prev, block_get_size, block_is_used, block_set_used, block_set_free,
  new_header,
}
use os_porting.Kernel.Heap.Tiles.{Tile, used, free, size_of, flags_of, Header, SameAt}

abbrev pub is_used : Tile → Bool
is_used (used n) = true
is_used (free n) = false

abbrev pub resized : Tile → ℕ → Tile
resized (used m) n = used n
resized (free m) n = free n

pub size_of-resized : (t : Tile) (n : ℕ) → size_of (resized t n) ≡ n
size_of-resized (used m) n = refl
size_of-resized (free m) n = refl

pub get_size :
    {s : Blocks} {p : Option ℕ} {b : ℕ} {t : Tile} → Header s p b t → block_get_size b s ≡ size_of t
unfolding block_get_size
get_size h = omega (arith, h.size, h.aligned)

pub is_used-Header :
    {s : Blocks} {p : Option ℕ} {b : ℕ} (t : Tile) → Header s p b t → block_is_used b s ≡ is_used t
unfolding block_is_used
is_used-Header (used n) h = rw h.flags refl
is_used-Header (free n) h = rw h.flags refl

pub same_trans : {s s' s'' : Blocks} {a : ℕ} → SameAt s s' a → SameAt s' s'' a → SameAt s s'' a
same_trans h k = record {
  size = k.size ∙ h.size;
  prev = k.prev ∙ h.prev;
  flags = k.flags ∙ h.flags;
  magic = k.magic ∙ h.magic;
}

pub same_here : {s : Blocks} (a : ℕ) → SameAt s s a
same_here a = record { size = refl; prev = refl; flags = refl; magic = refl }

-- A header that takes another size, place or use.
pub Header-resize :
    {s : Blocks} {p : Option ℕ} {b : ℕ} (t : Tile) (n : ℕ)
    → Header s p b t
    → n % 16 ≡ 0
    → 64 ≤ n
    → Header (set_size b n s) p b (resized t n)
Header-resize {s} {p} {b} (used m) n h aligned enough = record {
  size = put_self s.size b n;
  prev = h.prev;
  flags = h.flags;
  magic = h.magic;
  aligned = aligned;
  enough = enough;
}
Header-resize {s} {p} {b} (free m) n h aligned enough = record {
  size = put_self s.size b n;
  prev = h.prev;
  flags = h.flags;
  magic = h.magic;
  aligned = aligned;
  enough = enough;
}

pub Header-prev :
    {s : Blocks} {p : Option ℕ} {b : ℕ} {t : Tile} (q : Option ℕ)
    → Header s p b t
    → Header (set_prev b q s) q b t
Header-prev {s} {p} {b} q h = record {
  size = h.size;
  prev = put_self s.prev b q;
  flags = h.flags;
  magic = h.magic;
  aligned = h.aligned;
  enough = h.enough;
}

or_used : (t : Tile) {f : ℕ} → f ≡ flags_of t → bit_or f 1 ≡ 1
or_used (used n) e = rw e refl
or_used (free n) e = rw e refl

and_free : (t : Tile) {f : ℕ} → f ≡ flags_of t → bit_and f (2 ^ 32 - 2) ≡ 0
and_free (used n) e = rw e refl
and_free (free n) e = rw e refl

pub Header-used :
    {s : Blocks} {p : Option ℕ} {b : ℕ} (t : Tile)
    → Header s p b t
    → Header (block_set_used b s) p b (used (size_of t))
unfolding block_set_used
Header-used {s} {p} {b} t h = record {
  size = h.size;
  prev = h.prev;
  flags = put_self s.flags b _ ∙ or_used t h.flags;
  magic = put_self s.magic b _;
  aligned = h.aligned;
  enough = h.enough;
}

pub Header-free :
    {s : Blocks} {p : Option ℕ} {b : ℕ} (t : Tile)
    → Header s p b t
    → Header (block_set_free b s) p b (free (size_of t))
unfolding block_set_free
Header-free {s} {p} {b} t h = record {
  size = h.size;
  prev = h.prev;
  flags = put_self s.flags b _ ∙ and_free t h.flags;
  magic = put_self s.magic b _;
  aligned = h.aligned;
  enough = h.enough;
}

pub Header-new :
    (s : Blocks) (p : Option ℕ) (b n : ℕ)
    → n % 16 ≡ 0
    → 64 ≤ n
    → Header (new_header b p n s) p b (free n)
unfolding block_set_free
Header-new s p b n aligned enough = record {
  size = put_self s.size b n;
  prev = put_self s.prev b p;
  flags = put_self (put s.flags b 0) b _ ∙ and_free (free n) (put_self s.flags b 0);
  magic = put_self s.magic b _;
  aligned = aligned;
  enough = enough;
}

-- Writes elsewhere.
module _ {s : Blocks} {a b : ℕ} (far : a ≢ b) where
  pub same-set_size : (n : ℕ) → SameAt s (set_size b n s) a
  same-set_size n = record {
    size = put-other s.size n far;
    prev = refl;
    flags = refl;
    magic = refl;
  }

  pub same-set_prev : (p : Option ℕ) → SameAt s (set_prev b p s) a
  same-set_prev p = record {
    size = refl;
    prev = put-other s.prev p far;
    flags = refl;
    magic = refl;
  }

  pub same-set_used : SameAt s (block_set_used b s) a
  unfolding block_set_used
  same-set_used = record {
    size = refl;
    prev = refl;
    flags = put-other s.flags _ far;
    magic = put-other s.magic _ far;
  }

  pub same-set_free : SameAt s (block_set_free b s) a
  unfolding block_set_free
  same-set_free = record {
    size = refl;
    prev = refl;
    flags = put-other s.flags _ far;
    magic = put-other s.magic _ far;
  }

  pub same-new_header : (p : Option ℕ) (n : ℕ) → SameAt s (new_header b p n s) a
  unfolding block_set_free
  same-new_header p n = record {
    size = put-other s.size n far;
    prev = put-other s.prev p far;
    flags = put-other (put s.flags b 0) _ far ∙ put-other s.flags 0 far;
    magic = put-other s.magic _ far;
  }
