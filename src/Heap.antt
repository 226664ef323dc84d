-- ===== src/Heap.antt =====
-- jordyOS/ape/platform.c: the arena of the Apelang runtime, `malloc`, `free` and `calloc`. The list
-- is the chain of blocks from `first` on, [] being a null `first`. A block's header of 32 bytes
-- stands right behind the block before it, so addresses, counted from the start of the arena, are
-- sums; a null pointer is `none`.
pub mod Laws
mod Tests
use os_research_lab.Base.{
  ℕ, ◌+◌, ◌-◌, ◌*◌, ◌/◌, ◌^◌, List, [], ◌∷◌, Option, some, none, Bool, true, false, not, ◌&&◌, ◌||◌,
  ltb, leb, ◌==◌, u64, if◌then◌else◌,
}
use os_research_lab.Base.Fault.{Outcome, fault, done, ◌>>=◌}

-- `Block`, but for `next`.
pub record Block : Type 0 where
  pub size : ℕ
  pub available : Bool

-- `sizeof(arena)` and `sizeof(Block)`: two words and a bool, aligned to 16.
abbrev pub arena_size : ℕ
arena_size = 4194304

abbrev pub header_size : ℕ
header_size = 32

unfoldable pub ape_heap_reset : List Block
ape_heap_reset = record { size = arena_size - header_size; available = true } ∷ []

-- The address of the block behind one that starts at an address.
abbrev pub after : ℕ → Block → ℕ
after at b = at + header_size + b.size

-- A multiple of 16 that holds the size, and at least 16.
abbrev pub rounded : ℕ → ℕ
rounded size = let up = (size + 15) / 16 * 16 in if up == 0 then 16 else up

abbrev pub passed : Block → Option (ℕ × List Block) → Option (ℕ × List Block)
passed b none = none
passed b (some (p, blocks)) = some (p, b ∷ blocks)

-- The blocks that take the place of one that is allocated.
unfoldable pub split : Block → ℕ → List Block → List Block
split b size rest =
    if leb (size + header_size + 16) b.size
    then record { size = size; available = false }
      ∷ record { size = b.size - size - header_size; available = true }
      ∷ rest
    else record b { available = false } ∷ rest

-- The loop of `malloc` at a block that starts at `at`.
unfoldable pub malloc_from : List Block → ℕ → ℕ → Option (ℕ × List Block)
malloc_from [] at size = none
malloc_from (b ∷ rest) at size =
    let later = passed b (malloc_from rest (after at b) size) in
    if not b.available || ltb b.size size then later else some (at + header_size, split b size rest)

-- `if (!first) ape_heap_reset();`
abbrev pub started : List Block → List Block
started [] = ape_heap_reset
started (b ∷ blocks) = b ∷ blocks

abbrev pub allocated : List Block → Option (ℕ × List Block) → Option ℕ × List Block
allocated blocks none = (none, blocks)
allocated blocks (some (p, blocks')) = (some p, blocks')

unfoldable pub malloc : List Block → ℕ → Option ℕ × List Block
malloc blocks size =
    if ltb (arena_size - header_size) size
    then (none, started blocks)
    else allocated (started blocks) (malloc_from (started blocks) 0 (rounded size))

-- `((Block*)ptr - 1)->available = true`, for the block whose bytes start at `ptr`. Where no block
-- starts there the store hits other bytes, in or outside the arena, which is a fault.
unfoldable pub mark : List Block → ℕ → ℕ → Outcome (List Block)
mark [] at ptr = fault
mark (b ∷ rest) at ptr =
    let later = mark rest (after at b) ptr in
    if at + header_size == ptr
    then done (record b { available = true } ∷ rest)
    else (do rest' ← later; done (b ∷ rest'))

abbrev pub merged : Block → Block → Block
merged b n = record b { size = b.size + (header_size + n.size) }

-- The loop of `free` at `b`, with the blocks behind it.
unfoldable pub coalesce_from : Block → List Block → List Block
coalesce_from b [] = b ∷ []
coalesce_from b (n ∷ rest) =
    let joined = coalesce_from (merged b n) rest in
    let kept = coalesce_from n rest in if b.available && n.available then joined else b ∷ kept

abbrev pub coalesce : List Block → List Block
coalesce [] = []
coalesce (b ∷ rest) = coalesce_from b rest

unfoldable pub free : List Block → Option ℕ → Outcome (List Block)
unfolding mark coalesce_from
free blocks none = done blocks
free blocks (some ptr) = do marked ← mark blocks 0 ptr; done (coalesce marked)

-- `calloc`, but for the zeros it writes.
unfoldable pub calloc : List Block → ℕ → ℕ → Option ℕ × List Block
calloc blocks count size =
    if not (count == 0) && ltb ((2 ^ 64 - 1) / count) size
    then (none, blocks)
    else malloc blocks (u64 (count * size))
