-- ===== src/Heap/Tests.antt =====
-- Examples for the allocator of ape/platform.c: one block in use and the rest of the arena.
use os_research_lab.Base.{
  ℕ, ◌-◌, ◌≤◌, ◌<◌, ◌==◌, List, [], ◌∷◌, some, none, true, false, ◌≡◌, ◌⊎◌, inr, refl, arith,
  if◌then◌else◌,
}
use os_research_lab.Heap.{Block, arena_size, header_size, rounded, started, malloc, mark, free}
use os_research_lab.Heap.Laws.{IsHeap, SettledAfter, in_use, Granted, NoRoom, malloc_lem, free_lem}
use os_research_lab.Base.Fault.{fault, done}

abbrev two_blocks : List Block
two_blocks =
    record { size = 64; available = false } ∷ record { size = 4194176; available = true } ∷ []

two_blocks-IsHeap : IsHeap two_blocks
two_blocks-IsHeap = record { tiles = omega arith; aligned = (omega arith, (omega arith, tt)) }

malloc_lem_example :
    ((malloc two_blocks 100 ≡ (none, started two_blocks))
      × ((arena_size - header_size < 100) ⊎ NoRoom (started two_blocks) (rounded 100)))
    ⊎ ((p : ℕ) × (blocks' : List Block) × (malloc two_blocks 100 ≡ (some p, blocks'))
        × (100 ≤ arena_size - header_size)
        × Granted (started two_blocks) 0 100 p blocks'
        × IsHeap blocks')
malloc_lem_example = malloc_lem two_blocks 100 (inr two_blocks-IsHeap)

free_lem_example :
    ((free two_blocks (some 32) ≡ fault) × (in_use two_blocks 32 ≡ none))
    ⊎ ((blocks' : List Block) × (free two_blocks (some 32) ≡ done blocks')
        × IsHeap blocks'
        × SettledAfter false blocks'
        × ((q : ℕ) → in_use blocks' q ≡ (if q == 32 then none else in_use two_blocks q)))
free_lem_example = free_lem two_blocks 32 two_blocks-IsHeap

-- A pointer into a block is no pointer to free.
stray_pointer : free two_blocks (some 40) ≡ fault
unfolding free mark
stray_pointer = refl
