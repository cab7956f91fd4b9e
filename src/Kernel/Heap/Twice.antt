-- ===== src/Kernel/Heap/Twice.antt =====
-- A second `kfree` of the same pointer.
use os_porting.Base.{
  ℕ, ◌≡◌, inl, inr, ◌⊎◌, refl, sym, subst, ap, Bool, true, false, not, Option, none, some, leb, ltb,
  ◌==◌, ◌||◌, if◌then◌else◌, Bool-cases, put_self, ◌∙◌, ◌>>=◌, List, ◌∷◌, ◌++◌, ◌+◌, Yields, yields,
}
use os_porting.Kernel.Heap.{
  Heap, Blocks, block_get_size, block_is_used, block_get_next_physical, block_set_free, block_magic,
  free_magic, set_prev_of, relink, fuel, free_list_add, free_list_remove, merge_next, merge_prev,
  coalesce_blocks, take_in,
}
use os_porting.Kernel.Heap.Calls.{kfree, give_back, data_to_block, uncharge}
use os_porting.Kernel.Heap.Frees.{FreeList, add, remove}
use os_porting.Kernel.Heap.Tiles.{Tile, used, past}
use os_porting.Kernel.Heap.Settle.{put_free}
use os_porting.Kernel.Heap.Inv.{Inv}
use os_porting.Kernel.Heap.Release.{kfree-Freed}

-- What holds of a result, if there is one.
data Partly {A : Type 0} (P : A → Type 0) : Option A → Type 0 where
  nothing : Partly P none
  result : {a : A} → P a → Partly P (some a)

Partly-bind :
    {A B : Type 0} {P : A → Type 0} {Q : B → Type 0} {o : Option A} {f : A → Option B}
    → Partly P o
    → ((a : A) → P a → Partly Q (f a))
    → Partly Q (o >>= f)
Partly-bind nothing next = nothing
Partly-bind (result p) next = next _ p

some_inj : {A : Type 0} {a b : A} → some a ≡ some b → a ≡ b
some_inj e = cc

Partly-at : {A : Type 0} {P : A → Type 0} {o : Option A} (a : A) → Partly P o → o ≡ some a → P a
Partly-at a nothing e = absurd cc
Partly-at {A} {P} a (result p) e = subst P (some_inj e) p

-- The block's magic number is that of a free one.
abbrev IsMarked : ℕ → Heap → Type 0
IsMarked b h = h.blocks.magic b ≡ free_magic

set_prev_of-magic : (o : Option ℕ) (b : ℕ) (s : Blocks) → (set_prev_of o b s).magic ≡ s.magic
set_prev_of-magic none b s = refl
set_prev_of-magic (some a) b s = refl

take_in-magic : (b n : ℕ) (h : Heap) → (take_in b n h).blocks.magic ≡ h.blocks.magic
unfolding relink
take_in-magic b n h = set_prev_of-magic _ b _

skip : (h : Heap) (t : Bool) (x : Option Heap) → x ≡ some h → (if t then some h else x) ≡ some h
skip h true x e = refl
skip h false x e = e

module _ (b : ℕ) where
  absorbed :
      (c k n : ℕ) (h : Heap)
      → IsMarked b h
      → Partly (IsMarked b) (free_list_remove c h >>= λ h'. some (take_in k n h'))
  unfolding free_list_remove
  absorbed c k n h m =
      Partly-bind (without (remove (fuel h) c h.free))
        (λ h' e. result (ap (λ f. f b) (take_in-magic k n h') ∙ e))
    where
      without :
          (o : Option FreeList) → Partly (IsMarked b) (o >>= λ l. some (record h { free = l }))
      without none = nothing
      without (some l) = result {a = record h { free = l }} m

  merge_next-IsMarked :
      (o : Option ℕ) (c : ℕ) (h : Heap) → IsMarked b h → Partly (IsMarked b) (merge_next o c h)
  merge_next-IsMarked none c h m = result m
  merge_next-IsMarked (some n) c h m = elim (Bool-cases (block_is_used n h.blocks)) [
    | inl e ↦ rw e (result m)
    | inr e ↦ rw e (absorbed n c n h m)
  ]

  merge_prev-IsMarked :
      (o : Option ℕ) (c : ℕ) (h : Heap) → IsMarked b h → Partly (IsMarked b) (merge_prev o c h)
  merge_prev-IsMarked none c h m = result m
  merge_prev-IsMarked (some p) c h m = elim (Bool-cases (block_is_used p h.blocks)) [
    | inl e ↦ rw e (result m)
    | inr e ↦ rw e (absorbed c p c h m)
  ]

  coalesce_blocks-IsMarked : (h : Heap) → IsMarked b h → Partly (IsMarked b) (coalesce_blocks b h)
  unfolding coalesce_blocks
  coalesce_blocks-IsMarked h m = elim (Bool-cases (block_is_used b h.blocks)) [
    | inl e ↦ rw e (result m)
    | inr e ↦ rw e (
        Partly-bind (merge_next-IsMarked (block_get_next_physical b h.blocks h.end) b h m)
          (λ h' m'. merge_prev-IsMarked (h'.blocks.prev b) b h' m'))
  ]

  give_back-IsMarked : (h : Heap) → Partly (IsMarked b) (give_back b h)
  unfolding give_back free_list_add block_set_free
  give_back-IsMarked h =
      Partly-bind (listed (add (fuel h) b h.free))
        (λ h' e. coalesce_blocks-IsMarked (uncharge (block_get_size b h.blocks) h') e)
    where
      listed :
          (o : Option FreeList)
          → Partly (IsMarked b) (
              o >>= λ l.
              some (record h { free = l; blocks = block_set_free b (block_set_free b h.blocks) }))
      listed none = nothing
      listed (some l) = result (put_self (block_set_free b h.blocks).magic b free_magic)

  -- A pointer to such a block is not freed.
  marked-kfree : (p : ℕ) (h : Heap) → data_to_block p ≡ b → IsMarked b h → kfree (some p) h ≡ some h
  unfolding kfree
  marked-kfree p h e m =
      let known : (h.blocks.magic (data_to_block p) == block_magic) ≡ false =
        ap (λ k. k == block_magic) (ap h.blocks.magic e ∙ m) in
      skip h (not h.initialized) _ (rw known refl)

-- `kfree` changes nothing, or it is `give_back`.
either_way :
    (h : Heap) (g : Option Heap) (t : Bool) (x : Option Heap)
    → (x ≡ some h) ⊎ (x ≡ g)
    → ((if t then some h else x) ≡ some h) ⊎ ((if t then some h else x) ≡ g)
either_way h g true x e = inl refl
either_way h g false x e = e

kfree_cases :
    (p : ℕ) (h : Heap)
    → (kfree (some p) h ≡ some h) ⊎ (kfree (some p) h ≡ give_back (data_to_block p) h)
unfolding kfree
kfree_cases p h =
    let g = give_back (data_to_block p) h in
    let b = data_to_block p in
    either_way h g (not h.initialized) _ (
      either_way h g (not (h.blocks.magic b == block_magic)) _ (
        either_way h g (not (block_is_used b h.blocks)) _
          (either_way h g (ltb b h.start || leb h.end b) _ (inr refl))))

kfree_null : (h : Heap) → kfree none h ≡ some h
unfolding kfree
kfree_null h = refl

after_first : (p : Option ℕ) (h h' : Heap) → kfree p h ≡ some h' → kfree p h' ≡ some h'
after_first none h h' e = kfree_null h'
after_first (some p) h h' e = elim (kfree_cases p h) [
  | inl same ↦ subst (λ k. kfree (some p) k ≡ some k) (some_inj (sym same ∙ e)) same
  | inr back ↦
      let b = data_to_block p in
      marked-kfree b p h' refl (Partly-at h' (give_back-IsMarked b h) (sym back ∙ e))
]

Yields-at : {A : Type 0} {P : A → Type 0} (o : Option A) → Yields P o → (a : A) × (o ≡ some a) × P a
Yields-at none y = elim y [ ]
Yields-at (some a) (yields p) = (a, refl, p)

-- On a heap in order, `kfree` of a block in use ends, with the block free, one with its free
-- neighbours and the heap in order; a second `kfree` of the same pointer then ends too and changes
-- nothing.
pub kfree-kfree :
    (h : Heap) (ls rs : List Tile) (n : ℕ)
    → Inv h (ls ++ used n ∷ rs)
    → Yields
        (λ h'. Inv h' (put_free ls n rs) × (kfree (some (past h.start ls + 32)) h' ≡ some h'))
        (kfree (some (past h.start ls + 32)) h)
kfree-kfree h ls rs n v =
    let p = some (past h.start ls + 32) in
    let (h', e, (changes, inv)) = Yields-at (kfree p h) (kfree-Freed h ls rs n v) in
    rw e (yields (inv, after_first p h h' e))
