-- ===== src/Isolation/Range.antt =====
-- jordyOS/isolation.c: the laws of `user_range`, and what a process may reach.
use os_research_lab.Base.{
  ℕ, zero, suc, ◌+◌, ◌-◌, ◌*◌, ◌/◌, ◌%◌, ◌≤◌, ◌<◌, List, [], ◌∷◌, some, Bool, true, false, ◌&&◌,
  ◌||◌, leb, ltb, ◌==◌, length, get_or, get_elem?-of_lt, Bool-cases, ◌≡◌, ◌⊎◌, inl, inr, refl,
  arith, ◌>>>◌,
}
use os_research_lab.Base.Fault.{done}
use os_research_lab.Isolation.{
  user_base, user_stack_top, page_size, entry_at, lets, range_loop, user_range,
}

abbrev EachTable : List (List ℕ) → Type 0
EachTable [] = Unit {0}
EachTable (t ∷ pt) = (length t ≡ 512) × EachTable pt

-- Five tables of 512 entries.
abbrev pub IsTables : List (List ℕ) → Type 0
IsTables pt = (length pt ≡ 5) × EachTable pt

table-full :
    (pt : List (List ℕ)) (i : ℕ) → EachTable pt → i < length pt → length (get_or pt i []) ≡ 512
table-full [] i h k = absurd (omega arith)
table-full (t ∷ pt) zero h k = h.0
table-full (t ∷ pt) (suc i) h k = table-full pt i h.1 (omega arith)

-- The entry of a page of the process.
abbrev entry : List (List ℕ) → ℕ → ℕ
entry pt page =
    get_or (get_or pt ((page - user_base) >>> 21) []) (((page - user_base) >>> 12) % 512) 0

entry_at_lem :
    (pt : List (List ℕ)) (page : ℕ)
    → IsTables pt
    → page < user_stack_top
    → entry_at pt page ≡ done (entry pt page)
entry_at_lem pt page h top =
    let inside : ((page - user_base) >>> 21) < length pt = omega (arith, h.0) in
    let full = table-full pt ((page - user_base) >>> 21) h.1 inside in
    rw
      (
        get_elem?-of_lt pt ((page - user_base) >>> 21) [] inside,
        get_elem?-of_lt (get_or pt ((page - user_base) >>> 21) [])
            (((page - user_base) >>> 12) % 512) 0 (omega (arith, full)),
      )
      refl

-- Whether the process may write, or read, at an address.
abbrev pub may : Bool → List (List ℕ) → ℕ → Bool
may write pt x =
    leb user_base x && ltb x user_stack_top && lets (entry pt (x / page_size * page_size)) write

range_loop-reads :
    (left : ℕ) (pt : List (List ℕ)) (page last : ℕ) (write : Bool)
    → IsTables pt
    → last < user_stack_top
    → (range_loop left pt page last write ≡ done true)
      ⊎ (range_loop left pt page last write ≡ done false)
unfolding range_loop
range_loop-reads zero pt page last write h top = inl refl
range_loop-reads (suc left) pt page last write h top = elim (Bool-cases (leb page last)) [
  | inr over ↦ rw over (inl refl)
  | inl more ↦
      rw (more, entry_at_lem pt page h (ground arith))
        (elim (Bool-cases (lets (entry pt page) write)) [
          | inl passes ↦ rw passes (range_loop-reads left pt (page + page_size) last write h top)
          | inr shut ↦ rw shut (inr refl)
        ])
]

-- A loop that passes has seen the page of every address up to the last.
range_loop-lets :
    (left : ℕ) (pt : List (List ℕ)) (page last x : ℕ) (write : Bool)
    → IsTables pt
    → last < user_stack_top
    → page % page_size ≡ 0
    → page ≤ x
    → x ≤ last
    → last < page + left * page_size
    → range_loop left pt page last write ≡ done true
    → lets (entry pt (x / page_size * page_size)) write ≡ true
unfolding range_loop
range_loop-lets zero pt page last x write h top aligned from to enough passes = absurd (omega arith)
range_loop-lets (suc left) pt page last x write h top aligned from to enough passes =
    let more : leb page last ≡ true = ground arith in
    let step = rw (more, entry_at_lem pt page h (omega arith)) at passes in
    elim (Bool-cases (lets (entry pt page) write)) [
      | inr shut ↦ absurd (ground (arith, step))
      | inl open_page ↦ elim (Bool-cases (ltb x (page + page_size))) [
        | inl here ↦ let same : x / page_size * page_size ≡ page = ground arith in rw same open_page
        | inr later ↦
            range_loop-lets left pt (page + page_size) last x write h top (omega arith)
              (ground arith) to (omega arith) (rw open_page at step)
      ]
    ]

pub user_range-reads :
    (pt : List (List ℕ)) (address size : ℕ) (write : Bool)
    → IsTables pt
    → (user_range (some pt) address size write ≡ done true)
      ⊎ (user_range (some pt) address size write ≡ done false)
unfolding user_range
user_range-reads pt address size write h = elim (Bool-cases (size == 0)) [
  | inl empty ↦ rw empty (inl refl)
  | inr some_bytes ↦
      rw some_bytes
        (elim (Bool-cases (
          ltb address user_base
          || leb user_stack_top address
          || ltb (user_stack_top - address) size)) [
            | inl out ↦ rw out (inr refl)
            | inr within ↦ rw within (
                range_loop-reads (size / page_size + 2) pt (address / page_size * page_size)
                  (address + size - 1) write h (ground arith))
          ])
]

-- Of five full tables, a range that `user_range` lets pass holds only addresses that the process may
-- reach itself: behind USER_BASE, below the top of the stack, on pages whose entries are present, for
-- the user and, for a write, writable.
pub user_range-may :
    (pt : List (List ℕ)) (address size x : ℕ) (write : Bool)
    → IsTables pt
    → user_range (some pt) address size write ≡ done true
    → address ≤ x
    → x < address + size
    → may write pt x ≡ true
unfolding user_range
user_range-may pt address size x write h passes from to =
    let some_bytes : size == 0 ≡ false = ground arith in
    let step = rw some_bytes at passes in
    elim (Bool-cases (
      ltb address user_base || leb user_stack_top address || ltb (user_stack_top - address) size)) [
        | inl out ↦ absurd (ground (arith, step))
        | inr within ↦
            let seen =
              range_loop-lets (size / page_size + 2) pt (address / page_size * page_size)
                (address + size - 1) x write h (ground arith) (omega arith) (omega arith)
                (omega arith) (ground arith) (rw within at step) in
            rw seen (ground arith)
      ]
