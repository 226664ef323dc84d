-- ===== src/Isolation/Tests.antt =====
-- jordyOS/isolation.c at concrete page tables: one page that the process may write.
use os_research_lab.Base.{
  ℕ, ◌+◌, ◌*◌, List, [], ◌∷◌, some, false, true, replicate, set, ◌≡◌, refl, arith, if◌then◌else◌,
}
use os_research_lab.Base.Fault.{done, Ensures}
use os_research_lab.Isolation.{user_base, page_size, user_range, map_page, Kernel, syscall}
use os_research_lab.Isolation.Range.{IsTables, may, user_range-may}
use os_research_lab.Isolation.Calls.{Keeps}
use os_research_lab.Isolation.Reads.{syscall_lem}
use os_research_lab.Isolation.Same.{Agree, SameOutcome}

abbrev test_tables : List (List ℕ)
test_tables = set (replicate 5 (replicate 512 0)) 0 (set (replicate 512 0) 3 0x200007)

abbrev test_page : ℕ
test_page = user_base + 3 * page_size

-- The tables are what `map_page` makes of empty ones.
mapped : map_page (replicate 5 (replicate 512 0)) test_page 0x200000 2 ≡ done test_tables
unfolding map_page
mapped = refl

passes : user_range (some test_tables) (test_page + 8) 100 true ≡ done true
unfolding user_range
passes = refl

test_tables-IsTables : IsTables test_tables
test_tables-IsTables = (refl, (refl, (refl, (refl, (refl, (refl, tt))))))

user_range-may_example : may true test_tables (test_page + 50) ≡ true
user_range-may_example =
    user_range-may test_tables (test_page + 8) 100 (test_page + 50) true test_tables-IsTables passes
      (omega arith) (omega arith)

abbrev test_kernel : Kernel
test_kernel = record {
  files = [];
  memory = λ x. 65;
  keys = 104 ∷ 105 ∷ 10 ∷ [];
  calls = [];
  pid = 1;
  rejected = 0;
}

-- Bytes that differ from those of the kernel outside the page.
abbrev other_bytes : ℕ → ℕ
other_bytes x = if may false test_tables x then 65 else 66

other_bytes-Agree : Agree test_tables test_kernel.memory other_bytes
other_bytes-Agree x h = rw h refl

-- A line read into the page leaves the bytes of the next page, whatever they are.
syscall_lem_example :
    Ensures
      (Keeps test_kernel (test_page + page_size))
      (syscall (some test_tables) test_kernel 2 test_page 16 0 0 0)
    × SameOutcome test_tables (syscall (some test_tables) test_kernel 2 test_page 16 0 0 0) (
        syscall
          (some test_tables)
          (record test_kernel { memory = other_bytes })
          2
          test_page
          16
          0
          0
          0)
syscall_lem_example =
    syscall_lem test_tables test_kernel other_bytes (test_page + page_size) 2 test_page 16 0 0 0
      test_tables-IsTables refl other_bytes-Agree
