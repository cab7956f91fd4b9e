-- ===== src/Kernel/Heap/Apart.antt =====
-- No two free blocks are neighbours: what allocation and release make of such a row.
use os_porting.Base.{
  ℕ, ◌+◌, ◌-◌, ◌≤◌, ◌≡◌, ◌≢◌, refl, subst, arith, inl, inr, Bool, true, false, List, [], ◌∷◌, ◌++◌,
  append_assoc, ltb, Bool-cases, ◌∙◌, if◌then◌else◌,
}
use os_porting.Kernel.Heap.Tiles.{Tile, used, free}
use os_porting.Kernel.Heap.Split.{cut_tile}
use os_porting.Kernel.Heap.Settle.{
  left_of, put_free, left_of-used, left_of-free, Snoc, empty, snoc, last_of,
}

abbrev pub starts_free : List Tile → Bool
starts_free [] = false
starts_free (used n ∷ ts) = false
starts_free (free n ∷ ts) = true

unfoldable pub IsApart : List Tile → Type 0
IsApart [] = Unit
IsApart (used n ∷ ts) = IsApart ts
IsApart (free n ∷ ts) = (starts_free ts ≡ false) × IsApart ts

-- What follows a row may grow or shrink while it begins with a tile that is in use.
true_not_false : true ≢ false
true_not_false e = cc

starts-append :
    (ls rs rs' : List Tile)
    → starts_free rs' ≡ starts_free rs
    → starts_free (ls ++ rs') ≡ starts_free (ls ++ rs)
starts-append [] rs rs' e = e
starts-append (used n ∷ ls) rs rs' e = refl
starts-append (free n ∷ ls) rs rs' e = refl

pub IsApart-append :
    (ls rs rs' : List Tile)
    → starts_free rs' ≡ starts_free rs
    → IsApart rs'
    → IsApart (ls ++ rs)
    → IsApart (ls ++ rs')
unfolding IsApart
IsApart-append [] rs rs' e a h = a
IsApart-append (used n ∷ ls) rs rs' e a h = IsApart-append ls rs rs' e a h
IsApart-append (free n ∷ ls) rs rs' e a (f, h) =
    (starts-append ls rs rs' e ∙ f, IsApart-append ls rs rs' e a h)

pub IsApart-right : (ls rs : List Tile) → IsApart (ls ++ rs) → IsApart rs
unfolding IsApart
IsApart-right [] rs h = h
IsApart-right (used n ∷ ls) rs h = IsApart-right ls rs h
IsApart-right (free n ∷ ls) rs (f, h) = IsApart-right ls rs h

-- A row that ends in a tile that is in use can be followed by any.
starts_used-append :
    (ls rs rs' : List Tile) (n : ℕ)
    → starts_free ((ls ++ used n ∷ []) ++ rs) ≡ starts_free ((ls ++ used n ∷ []) ++ rs')
starts_used-append [] rs rs' n = refl
starts_used-append (used m ∷ ls) rs rs' n = refl
starts_used-append (free m ∷ ls) rs rs' n = refl

IsApart-after_used :
    (ls rs rs' : List Tile) (n : ℕ)
    → IsApart rs'
    → IsApart ((ls ++ used n ∷ []) ++ rs)
    → IsApart ((ls ++ used n ∷ []) ++ rs')
unfolding IsApart
IsApart-after_used [] rs rs' n a h = a
IsApart-after_used (used m ∷ ls) rs rs' n a h = IsApart-after_used ls rs rs' n a h
IsApart-after_used (free m ∷ ls) rs rs' n a (f, h) =
    (starts_used-append ls rs' rs n ∙ f, IsApart-after_used ls rs rs' n a h)

-- What follows a row may change, if it does not begin with a free tile.
starts-stay :
    (ls rs rs' : List Tile)
    → starts_free rs' ≡ false
    → starts_free (ls ++ rs) ≡ false
    → starts_free (ls ++ rs') ≡ false
starts-stay [] rs rs' e h = e
starts-stay (used n ∷ ls) rs rs' e h = refl
starts-stay (free n ∷ ls) rs rs' e h = h

pub IsApart-stay :
    (ls rs rs' : List Tile)
    → starts_free rs' ≡ false
    → IsApart rs'
    → IsApart (ls ++ rs)
    → IsApart (ls ++ rs')
unfolding IsApart
IsApart-stay [] rs rs' e a h = a
IsApart-stay (used n ∷ ls) rs rs' e a h = IsApart-stay ls rs rs' e a h
IsApart-stay (free n ∷ ls) rs rs' e a (f, h) =
    (starts-stay ls rs rs' e f, IsApart-stay ls rs rs' e a h)

pub IsApart-cut_tile :
    (ls rs : List Tile) (m n : ℕ)
    → IsApart (ls ++ free m ∷ rs)
    → IsApart (ls ++ cut_tile (used m) n rs)
unfolding IsApart
IsApart-cut_tile ls rs m n h =
    let right = IsApart-right ls (free m ∷ rs) h in
    elim (Bool-cases (ltb (m - n) 64)) [
      | inl e ↦ rw e (IsApart-stay ls (free m ∷ rs) (used m ∷ rs) refl right.1 h)
      | inr e ↦ rw e (IsApart-stay ls (free m ∷ rs) (used n ∷ free (m - n) ∷ rs) refl right h)
    ]

left_of-IsApart :
    (ls rs rs' : List Tile) (n k : ℕ)
    → Snoc ls
    → starts_free rs ≡ false
    → IsApart rs
    → IsApart (ls ++ used k ∷ rs')
    → IsApart (left_of ls n rs)
unfolding IsApart
left_of-IsApart _ rs rs' n k empty s a h = (s, a)
left_of-IsApart _ rs rs' n k (snoc ls (used m)) s a h =
    rw (left_of-used ls m n rs) (IsApart-after_used ls (used k ∷ rs') (free n ∷ rs) m (s, a) h)
left_of-IsApart _ rs rs' n k (snoc ls (free m)) s a h =
    let whole = subst IsApart (append_assoc ls (free m ∷ []) (used k ∷ rs')) h in
    rw (left_of-free ls m n rs)
      (IsApart-append ls (free m ∷ used k ∷ rs') (free (m + n) ∷ rs) refl (s, a) whole)

pub put_free-IsApart :
    (ls rs : List Tile) (n k : ℕ) → IsApart (ls ++ used k ∷ rs) → IsApart (put_free ls n rs)
unfolding IsApart
put_free-IsApart ls [] n k h = left_of-IsApart ls [] [] n k (last_of ls) refl tt h
put_free-IsApart ls (used m ∷ rs) n k h =
    let right = IsApart-right ls (used k ∷ used m ∷ rs) h in
    left_of-IsApart ls (used m ∷ rs) (used m ∷ rs) n k (last_of ls) refl right h
put_free-IsApart ls (free m ∷ rs) n k h =
    let right = IsApart-right ls (used k ∷ free m ∷ rs) h in
    left_of-IsApart ls rs (free m ∷ rs) (n + m) k (last_of ls) right.0 right.1 h

-- A new free tile at the end.
IsApart-used : (ls : List Tile) (k : ℕ) → IsApart ls → IsApart (ls ++ used k ∷ [])
unfolding IsApart
IsApart-used [] k h = tt
IsApart-used (used m ∷ ls) k h = IsApart-used ls k h
IsApart-used (free m ∷ []) k h = (refl, tt)
IsApart-used (free m ∷ used n ∷ ls) k (f, h) = (refl, IsApart-used ls k h)
IsApart-used (free m ∷ free n ∷ ls) k (f, h) = absurd cc

pub put_free-end : (ls : List Tile) (n : ℕ) → IsApart ls → IsApart (put_free ls n [])
put_free-end ls n h = put_free-IsApart ls [] n 0 (IsApart-used ls 0 h)

-- Releasing what was just allocated restores the row.
left_of-apart :
    (ls rs : List Tile) (m k : ℕ)
    → Snoc ls
    → IsApart (ls ++ free m ∷ rs)
    → left_of ls k rs ≡ ls ++ free k ∷ rs
unfolding IsApart
left_of-apart _ rs m k empty h = refl
left_of-apart _ rs m k (snoc ls (used j)) h = left_of-used ls j k rs
left_of-apart _ rs m k (snoc ls (free j)) h =
    let right =
      IsApart-right ls (free j ∷ free m ∷ rs)
        (subst IsApart (append_assoc ls (free j ∷ []) (free m ∷ rs)) h) in
    absurd (true_not_false right.0)

put_free-apart :
    (ls rs : List Tile) (m : ℕ) → starts_free rs ≡ false → put_free ls m rs ≡ left_of ls m rs
put_free-apart ls [] m e = refl
put_free-apart ls (used k ∷ rs) m e = refl
put_free-apart ls (free k ∷ rs) m e = absurd cc

-- What is put back after `cut_tile`: the tile's size and what follows it.
abbrev pub put_back : List Tile → ℕ → ℕ → List Tile → List Tile
put_back ls m n rs = if ltb (m - n) 64 then put_free ls m rs else put_free ls n (free (m - n) ∷ rs)

pub put_back-cut_tile :
    (ls rs : List Tile) (m n : ℕ)
    → IsApart (ls ++ free m ∷ rs)
    → n ≤ m
    → put_back ls m n rs ≡ ls ++ free m ∷ rs
unfolding IsApart
put_back-cut_tile ls rs m n h fits =
    let right = IsApart-right ls (free m ∷ rs) h in
    let whole : n + (m - n) ≡ m = omega arith in
    elim (Bool-cases (ltb (m - n) 64)) [
      | inl e ↦ rw e (put_free-apart ls rs m right.0 ∙ left_of-apart ls rs m m (last_of ls) h)
      | inr e ↦ rw (e, whole) (left_of-apart ls rs m m (last_of ls) h)
    ]
