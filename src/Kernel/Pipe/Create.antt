-- ===== src/Kernel/Pipe/Create.antt =====
-- `pipe_create` against `pipe_get`: which slot is taken, and what its descriptors lead to.
use os_porting.Base.{
  ℕ, zero, suc, ◌+◌, ◌-◌, ◌*◌, ◌/◌, ◌%◌, ◌≤◌, ◌<◌, ◌≡◌, ◌≢◌, refl, sym, ap, ◌∙◌, inl, inr, true,
  Option, none, some, List, [], ◌∷◌, arith, ◌==◌, if◌then◌else◌, Bool-cases, length, get_elem?, set,
  length-replicate, get_elem?-set_self, get_elem?-set_ne,
}
use os_porting.Base.Circular.{window-zero}
use os_porting.Kernel.Pipe.{Pipe, buffer_size}
use os_porting.Kernel.Pipe.Table.{
  Table, max_count, blank, alloc_from, fresh, CreateResult, ok, err, create, get,
}
use os_porting.Kernel.Pipe.Contract.{IsValid, view}

abbrev pub AllUsed : List Pipe → Type 0
AllUsed [] = Unit
AllUsed (p ∷ ps) = (p.flags ≢ 0) × AllUsed ps

-- The slot `j` of a table whose first slot is numbered `i` is in range and free.
abbrev FreeAt : ℕ → List Pipe → ℕ → Type 0
FreeAt i ps j =
    (i ≤ j) × (j - i < length ps) × ((p : Pipe) × (get_elem? ps (j - i) ≡ some p) × (p.flags ≡ 0))

abbrev Alloc : ℕ → List Pipe → Option ℕ → Type 0
Alloc i ps (some j) = FreeAt i ps j
Alloc i ps none = AllUsed ps

Alloc-cons :
    (i : ℕ) (p : Pipe) (ps : List Pipe) (r : Option ℕ)
    → p.flags ≢ 0
    → Alloc (i + 1) ps r
    → Alloc i (p ∷ ps) r
Alloc-cons i p ps none used rest = (used, rest)
Alloc-cons i p ps (some j) used (low, fits, (q, at, free)) =
    let shape : j - i ≡ suc (j - (i + 1)) = omega arith in
    (omega arith, omega arith, (q, ap (get_elem? (p ∷ ps)) shape ∙ at, free))

alloc_from-Alloc : (i : ℕ) (ps : List Pipe) → Alloc i ps (alloc_from i ps)
unfolding alloc_from
alloc_from-Alloc i [] = tt
alloc_from-Alloc i (p ∷ ps) = elim (Bool-cases (p.flags == 0)) [
  | inl free ↦
      let shape : zero ≡ i - i = omega arith in
      rw free (omega arith, omega arith, (p, ap (get_elem? (p ∷ ps)) (sym shape), ground arith))
  | inr used ↦
      rw used
        (Alloc-cons i p ps (alloc_from (i + 1) ps) (ground arith) (alloc_from-Alloc (i + 1) ps))
]

-- A new pipe is valid, and holds an empty channel with both ends open.
pub fresh-IsValid :
    (id : ℕ)
    → IsValid (fresh id)
      × (view (fresh id) ≡ record { held = []; can_read = true; can_write = true })
unfolding fresh blank
fresh-IsValid id = (
  record {
    ring = record {
      sized = length-blank;
      read_in = omega arith;
      write_at = refl;
      bounded = omega arith;
    };
    flags_small = omega arith;
    readers_queue = omega arith;
    writers_queue = omega arith;
  },
  ap (λ h. record { held = h; can_read = true; can_write = true })
      (window-zero buffer_size 0 blank 0),
)
  where
    length-blank : length blank ≡ buffer_size
    length-blank = length-replicate {A = ℕ} buffer_size 0

-- What `pipe_create` promises of its result.
abbrev pub Creates : Table → CreateResult → Type 0
Creates t (err e) = AllUsed t.pipes
Creates t (ok c) =
    (c.read_fd % 2 ≡ 0)
    × (c.write_fd ≡ c.read_fd + 1)
    × (get t c.read_fd ≡ none)
    × (get c.table c.read_fd ≡ some (fresh t.next_id))
    × (get c.table c.write_fd ≡ some (fresh t.next_id))
    × ((fd : ℕ) → fd ≢ c.read_fd → fd ≢ c.write_fd → get c.table fd ≡ get t fd)

-- A descriptor below 256 leads to the slot of its half.
get-slot :
    (t : Table) (fd : ℕ) (o : Option Pipe)
    → fd / 2 < max_count
    → get_elem? t.pipes (fd / 2) ≡ o
    → get t fd ≡ elim o [ none ↦ none | some p ↦ if p.flags == 0 then none else some p ]
unfolding get
get-slot t fd o h e = ground arith

get-other :
    (t u : Table) (fd : ℕ)
    → get_elem? t.pipes (fd / 2) ≡ get_elem? u.pipes (fd / 2)
    → get t fd ≡ get u fd
unfolding get
get-other t u fd e = ground arith

fresh-flags : (id : ℕ) → (fresh id).flags ≡ 3
unfolding fresh
fresh-flags id = refl

get-set :
    (t u : Table) (i id fd : ℕ)
    → length t.pipes ≡ max_count
    → i < max_count
    → u.pipes ≡ set t.pipes i (fresh id)
    → fd / 2 ≡ i
    → get u fd ≡ some (fresh id)
get-set t u i id fd sized small e at =
    get-slot u fd (some (fresh id)) (omega arith) (
      ap (get_elem? u.pipes) at
      ∙ ap (λ ps. get_elem? ps i) e
      ∙ get_elem?-set_self t.pipes i (fresh id) (omega arith))
    ∙ ground (arith, fresh-flags id)

create_cases :
    (t : Table) (r : Option ℕ)
    → alloc_from 0 t.pipes ≡ r
    → length t.pipes ≡ max_count
    → Alloc 0 t.pipes r
    → Creates t (create t)
unfolding create
create_cases t none e sized used = rw (e, create) used
create_cases t (some i) e sized (low, fits, (p, at, free)) =
    rw (e, create)
      (
        omega arith,
        omega arith,
        let here : i - 0 ≡ i * 2 / 2 = omega arith in
            get-slot t (i * 2) (some p) (omega arith) (ap (get_elem? t.pipes) (sym here) ∙ at)
            ∙ ground arith,
        get-set t _ i t.next_id (i * 2) sized (omega arith) refl (omega arith),
        get-set t _ i t.next_id (i * 2 + 1) sized (omega arith) refl (omega arith),
        λ fd r w.
            get-other _ t fd
              (get_elem?-set_ne t.pipes i (fd / 2) (fresh t.next_id) (λ s. omega arith)),
      )

-- With all 128 slots of the table: `pipe_create` fails only if every slot is in use. Otherwise it
-- returns an even descriptor, that led nowhere before, and the odd one behind it. Both lead to a
-- fresh pipe, and every other descriptor leads where it led.
pub create-Creates : (t : Table) → length t.pipes ≡ max_count → Creates t (create t)
create-Creates t sized =
    create_cases t (alloc_from 0 t.pipes) refl sized (alloc_from-Alloc 0 t.pipes)
