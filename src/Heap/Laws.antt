-- ===== src/Heap/Laws.antt =====
-- The allocator as a map from the addresses in use to their sizes, over blocks that tile the arena.
use os_research_lab.Base.{
  ℕ, ◌+◌, ◌-◌, ◌%◌, ◌≤◌, ◌<◌, List, [], ◌∷◌, Option, some, none, Bool, true, false, not, ◌&&◌, ◌||◌,
  ltb, leb, ◌==◌, Bool-cases, ◌≡◌, ◌⊎◌, inl, inr, refl, ap, ◌∙◌, arith, if◌then◌else◌,
}
use os_research_lab.Heap.{
  Block, arena_size, header_size, ape_heap_reset, after, rounded, split, malloc_from, started,
  malloc, mark, merged, coalesce_from, coalesce, free,
}
use os_research_lab.Base.Fault.{fault, done}

-- The bytes that a chain takes.
abbrev pub extent : List Block → ℕ
extent [] = 0
extent (b ∷ rest) = header_size + b.size + extent rest

abbrev pub EachAligned : List Block → Type 0
EachAligned [] = Unit {0}
EachAligned (b ∷ rest) = (b.size % 16 ≡ 0) × EachAligned rest

-- The blocks tile the arena, and every size is a multiple of 16.
pub record IsHeap (blocks : List Block) : Type 0 where
  pub tiles : extent blocks ≡ arena_size
  pub aligned : EachAligned blocks

-- The size of the block in use whose bytes start at an address.
abbrev pub in_use_from : List Block → ℕ → ℕ → Option ℕ
in_use_from [] at p = none
in_use_from (b ∷ rest) at p =
    if not b.available && (at + header_size == p)
    then some b.size
    else in_use_from rest (after at b) p

abbrev pub in_use : List Block → ℕ → Option ℕ
in_use blocks p = in_use_from blocks 0 p

below-none :
    (blocks : List Block) (at p : ℕ) → p < at + header_size → in_use_from blocks at p ≡ none
below-none [] at p h = refl
below-none (b ∷ rest) at p h = ground (arith, below-none rest (after at b) p)

-- What freeing the address `p` leaves of the blocks that start at `at`.
record Marked (blocks : List Block) (at p : ℕ) (marked : List Block) : Type 0 where
  tiles : extent marked ≡ extent blocks
  aligned : EachAligned blocks → EachAligned marked
  others : (q : ℕ) → in_use_from marked at q ≡ (if q == p then none else in_use_from blocks at q)

mark_lem :
    (blocks : List Block) (at p : ℕ)
    → ((mark blocks at p ≡ fault) × (in_use_from blocks at p ≡ none))
      ⊎ ((marked : List Block) × (mark blocks at p ≡ done marked) × Marked blocks at p marked)
unfolding mark
mark_lem [] at p = inl (refl, refl)
mark_lem (b ∷ rest) at p = elim (Bool-cases (at + header_size == p)) [
  | inl here ↦ inr (
    record b { available = true } ∷ rest,
    rw (mark, here) refl,
    record {
      tiles = refl;
      aligned = λ h. h;
      others = λ q. ground (arith, below-none rest (after at b) q);
    },
  )
  | inr there ↦ elim (mark_lem rest (after at b) p) [
    | inl (stray, unused) ↦ inl (rw (mark, there, stray) refl, ground (arith, unused))
    | inr (marked, is, m) ↦ inr (
      b ∷ marked,
      rw (mark, there, is) refl,
      record {
        tiles = ap (λ (n : ℕ). header_size + b.size + n) m.tiles;
        aligned = λ h. (h.0, m.aligned h.1);
        others = λ q. ground (arith, m.others q);
      },
    )
  ]
]

coalesce_lem :
    (b : Block) (rest : List Block) (at q : ℕ)
    → in_use_from (coalesce_from b rest) at q ≡ in_use_from (b ∷ rest) at q
unfolding coalesce_from
coalesce_lem b [] at q = refl
coalesce_lem b (n ∷ rest) at q =
    let e : after at (merged b n) ≡ after (after at b) n = omega arith in
    ground (arith, coalesce_lem (merged b n) rest at q, coalesce_lem n rest (after at b) q, e)

extent-coalesce :
    (b : Block) (rest : List Block) → extent (coalesce_from b rest) ≡ extent (b ∷ rest)
unfolding coalesce_from
extent-coalesce b [] = refl
extent-coalesce b (n ∷ rest) =
    ground (arith, extent-coalesce (merged b n) rest, extent-coalesce n rest)

aligned-coalesce :
    (b : Block) (rest : List Block) → EachAligned (b ∷ rest) → EachAligned (coalesce_from b rest)
unfolding coalesce_from
aligned-coalesce b [] h = h
aligned-coalesce b (n ∷ rest) h = elim (Bool-cases (b.available && n.available)) [
  | inl both ↦ rw both (aligned-coalesce (merged b n) rest (omega arith, h.1.1))
  | inr one ↦ rw one (h.0, aligned-coalesce n rest h.1)
]

coalesce-whole : (blocks : List Block) (q : ℕ) → in_use (coalesce blocks) q ≡ in_use blocks q
coalesce-whole [] q = refl
coalesce-whole (b ∷ rest) q = coalesce_lem b rest 0 q

coalesce-IsHeap : (blocks : List Block) → IsHeap blocks → IsHeap (coalesce blocks)
coalesce-IsHeap [] h = h
coalesce-IsHeap (b ∷ rest) h = record {
  tiles = extent-coalesce b rest ∙ h.tiles;
  aligned = aligned-coalesce b rest h.aligned;
}

-- Behind a block that is available or not, no two neighbours are both available.
abbrev pub SettledAfter : Bool → List Block → Type 0
SettledAfter before [] = Unit {0}
SettledAfter before (b ∷ rest) = ((before && b.available) ≡ false) × SettledAfter b.available rest

coalesce_from-SettledAfter :
    (before : Bool) (b : Block) (rest : List Block)
    → (before && b.available) ≡ false
    → SettledAfter before (coalesce_from b rest)
unfolding coalesce_from
coalesce_from-SettledAfter before b [] h = (h, tt)
coalesce_from-SettledAfter before b (n ∷ rest) h = elim (Bool-cases (b.available && n.available)) [
  | inl both ↦ rw both (coalesce_from-SettledAfter before (merged b n) rest h)
  | inr one ↦ rw one (h, coalesce_from-SettledAfter b.available n rest one)
]

coalesce-SettledAfter : (blocks : List Block) → SettledAfter false (coalesce blocks)
coalesce-SettledAfter [] = tt
coalesce-SettledAfter (b ∷ rest) = coalesce_from-SettledAfter false b rest refl

-- Freeing faults only at an address that is not in use. Otherwise it leaves the blocks tiling the arena,
-- that address free, and every other address in use with the size it had; and no two available
-- blocks stand next to each other.
pub free_lem :
    (blocks : List Block) (p : ℕ)
    → IsHeap blocks
    → ((free blocks (some p) ≡ fault) × (in_use blocks p ≡ none))
      ⊎ ((blocks' : List Block) × (free blocks (some p) ≡ done blocks')
          × IsHeap blocks'
          × SettledAfter false blocks'
          × ((q : ℕ) → in_use blocks' q ≡ (if q == p then none else in_use blocks q)))
unfolding free
free_lem blocks p h = elim (mark_lem blocks 0 p) [
  | inl (stray, unused) ↦ inl (rw stray refl, unused)
  | inr (marked, is, m) ↦ inr (
    coalesce marked,
    rw is refl,
    coalesce-IsHeap marked (record { tiles = m.tiles ∙ h.tiles; aligned = m.aligned h.aligned }),
    coalesce-SettledAfter marked,
    λ q. coalesce-whole marked q ∙ m.others q,
  )
]

-- What an allocation of `size` bytes from the blocks that start at `at` gives.
pub record Granted (blocks : List Block) (at size p : ℕ) (blocks' : List Block) : Type 0 where
  pub granted : ℕ
  pub enough : size ≤ granted
  pub above : at + header_size ≤ p
  pub inside : p + granted ≤ at + extent blocks
  pub was_free : in_use_from blocks at p ≡ none
  pub others :
      (q : ℕ)
      → in_use_from blocks' at q ≡ (if q == p then some granted else in_use_from blocks at q)
  pub tiles : extent blocks' ≡ extent blocks
  pub aligned : EachAligned blocks'

-- No available block holds `size` bytes.
abbrev pub NoRoom : List Block → ℕ → Type 0
NoRoom [] size = Unit {0}
NoRoom (b ∷ rest) size = ((b.available ≡ false) ⊎ (b.size < size)) × NoRoom rest size

split-Granted :
    (b : Block) (rest : List Block) (at size : ℕ)
    → b.available ≡ true
    → size ≤ b.size
    → size % 16 ≡ 0
    → EachAligned (b ∷ rest)
    → Granted (b ∷ rest) at size (at + header_size) (split b size rest)
unfolding split
split-Granted b rest at size idle fits even h =
    elim (Bool-cases (leb (size + header_size + 16) b.size)) [
      | inl wide ↦
          let e : at + header_size + size + header_size + (b.size - size - header_size)
              ≡ at + header_size + b.size =
            ground arith in
          rw wide (record {
            granted = size;
            enough = omega arith;
            above = omega arith;
            inside = omega arith;
            was_free = ground (arith, idle, below-none rest (after at b) (at + header_size));
            others = λ q. ground (arith, idle, e, below-none rest (after at b) q);
            tiles = ground arith;
            aligned = (even, (ground (arith, h.0), h.1));
          })
      | inr narrow ↦ rw narrow (record {
        granted = b.size;
        enough = fits;
        above = omega arith;
        inside = omega arith;
        was_free = ground (arith, idle, below-none rest (after at b) (at + header_size));
        others = λ q. ground (arith, idle, below-none rest (after at b) q);
        tiles = refl;
        aligned = h;
      })
    ]

passed-Granted :
    (b : Block) (rest rest' : List Block) (at size p : ℕ)
    → EachAligned (b ∷ rest)
    → Granted rest (after at b) size p rest'
    → Granted (b ∷ rest) at size p (b ∷ rest')
passed-Granted b rest rest' at size p h g = record {
  granted = g.granted;
  enough = g.enough;
  above = omega (arith, g.above);
  inside = omega (arith, g.inside);
  was_free = ground (arith, g.above, g.was_free);
  others = λ q. ground (arith, g.above, g.others q);
  tiles = ap (λ (n : ℕ). header_size + b.size + n) g.tiles;
  aligned = (h.0, g.aligned);
}

malloc_from_lem :
    (blocks : List Block) (at size : ℕ)
    → size % 16 ≡ 0
    → EachAligned blocks
    → ((malloc_from blocks at size ≡ none) × NoRoom blocks size)
      ⊎ ((p : ℕ) × (blocks' : List Block) × (malloc_from blocks at size ≡ some (p, blocks'))
          × Granted blocks at size p blocks')
unfolding malloc_from
malloc_from_lem [] at size even h = inl (refl, tt)
malloc_from_lem (b ∷ rest) at size even h = elim (Bool-cases (not b.available || ltb b.size size)) [
  | inr takes ↦ inr (
    at + header_size,
    split b size rest,
    rw (malloc_from, takes),
    split-Granted b rest at size (ground arith) (ground arith) even h,
  )
  | inl passes ↦ elim (malloc_from_lem rest (after at b) size even h.1) [
    | inl (nowhere, full) ↦ inl (rw (malloc_from, passes, nowhere), (ground arith, full))
    | inr (p, rest', there, g) ↦
        inr
          (p, b ∷ rest', rw (malloc_from, passes, there), passed-Granted b rest rest' at size p h g)
  ]
]

rounded_lem : (size : ℕ) → (size ≤ rounded size) × (rounded size % 16 ≡ 0)
rounded_lem size = ground arith

-- The null `first` of the start stands for the arena as one block.
reset-IsHeap : IsHeap ape_heap_reset
unfolding ape_heap_reset
reset-IsHeap = record { tiles = omega arith; aligned = (omega arith, tt) }

pub started-IsHeap : (blocks : List Block) → (blocks ≡ []) ⊎ IsHeap blocks → IsHeap (started blocks)
started-IsHeap [] h = reset-IsHeap
started-IsHeap (b ∷ blocks) (inl e) = cc
started-IsHeap (b ∷ blocks) (inr h) = h

-- From blocks that tile the arena, or before the first call, `malloc` either fails with no
-- change, and then the size is beyond the arena or no available block holds the rounded size; or it
-- gives an address inside the arena that was not in use, with at least the size asked for; every other
-- address in use keeps its size, and the blocks tile the arena again.
pub malloc_lem :
    (blocks : List Block) (size : ℕ)
    → (blocks ≡ []) ⊎ IsHeap blocks
    → ((malloc blocks size ≡ (none, started blocks))
        × ((arena_size - header_size < size) ⊎ NoRoom (started blocks) (rounded size)))
      ⊎ ((p : ℕ) × (blocks' : List Block) × (malloc blocks size ≡ (some p, blocks'))
          × (size ≤ arena_size - header_size)
          × Granted (started blocks) 0 size p blocks'
          × IsHeap blocks')
unfolding malloc
malloc_lem blocks size before =
    let h = started-IsHeap blocks before in
    let round = rounded_lem size in
    elim (Bool-cases (ltb (arena_size - header_size) size)) [
      | inl large ↦ inl (rw (malloc, large), inl (ground arith))
      | inr small ↦ elim (malloc_from_lem (started blocks) 0 (rounded size) round.1 h.aligned) [
        | inl (nowhere, full) ↦ inl (rw (malloc, small, nowhere), inr full)
        | inr (p, blocks', there, g) ↦ inr (
          p,
          blocks',
          rw (malloc, small, there),
          ground arith,
          record {
            granted = g.granted;
            enough = omega (arith, round.0, g.enough);
            above = g.above;
            inside = g.inside;
            was_free = g.was_free;
            others = g.others;
            tiles = g.tiles;
            aligned = g.aligned;
          },
          record { tiles = g.tiles ∙ h.tiles; aligned = g.aligned },
        )
      ]
    ]
