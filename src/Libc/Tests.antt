-- ===== src/Libc/Tests.antt =====
-- Runs of the string routines, and their theorems on a small memory.
use os_porting.Base.{
  ℕ, ◌+◌, ◌-◌, ◌<◌, ◌≤◌, ◌≡◌, ◌⊎◌, refl, some, arith, leb, ltb, ◌&&◌, ◌==◌, if◌then◌else◌, [], ◌∷◌,
}
use os_porting.Libc.{Memory, bytes_at}
use os_porting.Libc.Move.{memmove, copy_back, memmove-Moves}
use os_porting.Libc.Compare.{IsString, HoldsBytes, strcmp}

-- 7, 6, 5 at addresses 10, 11 and 12, 0 behind them, and 1 elsewhere.
abbrev memory : Memory
memory a = if leb 10 a && ltb a 13 then 17 - a else if a == 13 then 0 else 1

memory-HoldsBytes : HoldsBytes memory
memory-HoldsBytes a = ground arith

text-IsString : IsString memory 10 3
text-IsString = ((λ i low high. ground arith), refl)

move_back : bytes_at (memmove 3 11 10 memory) 10 4 ≡ 7 ∷ 7 ∷ 6 ∷ 5 ∷ []
unfolding memmove copy_back
move_back = refl

compare_run : strcmp 9 10 12 memory ≡ some 2
unfolding strcmp
compare_run = refl

memmove-Moves_example :
    (bytes_at (memmove 3 11 10 memory) 11 3 ≡ bytes_at memory 10 3)
    × ((a : ℕ) → (a < 11) ⊎ (11 + 3 ≤ a) → memmove 3 11 10 memory a ≡ memory a)
memmove-Moves_example = memmove-Moves 3 11 10 memory
