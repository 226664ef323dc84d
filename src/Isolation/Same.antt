-- ===== src/Isolation/Same.antt =====
-- jordyOS/isolation.c: two runs of a system call over the same bytes wherever the process may read.
use os_research_lab.Base.{
  ℕ, zero, suc, ◌+◌, ◌-◌, ◌^◌, ◌≤◌, ◌<◌, List, some, Bool, true, false, ◌&&◌, leb, ltb, length,
  Bool-cases, ◌≡◌, inl, inr, refl, arith, if◌then◌else◌,
}
use os_research_lab.Base.Fault.{Outcome, fault, reject, done, require, ◌>>=◌, ◌>>◌}
use os_research_lab.Isolation.{
  user_range, string_loop, Kernel, Reply, returns, waits, copied, bytes_at,
}
use os_research_lab.Isolation.Range.{IsTables, may, user_range-reads, user_range-may}

-- The same bytes wherever the process may read.
abbrev pub Agree : List (List ℕ) → (ℕ → ℕ) → (ℕ → ℕ) → Type 0
Agree pt memory memory' = (x : ℕ) → may false pt x ≡ true → memory x ≡ memory' x

-- The same kernel, but for bytes that the process may not read.
abbrev pub SameKernel : List (List ℕ) → Kernel → Kernel → Type 0
SameKernel pt k k' =
    (k.files ≡ k'.files)
    × (k.keys ≡ k'.keys)
    × (k.calls ≡ k'.calls)
    × (k.pid ≡ k'.pid)
    × (k.rejected ≡ k'.rejected)
    × Agree pt k.memory k'.memory

abbrev pub SameReply : List (List ℕ) → Reply → Reply → Type 0
SameReply pt (returns s k) (returns s' k') = (s ≡ s') × SameKernel pt k k'
SameReply pt waits waits = Unit {0}
SameReply pt waits (returns s k) = ⊥
SameReply pt (returns s k) waits = ⊥

abbrev pub SameOutcome : List (List ℕ) → Outcome Reply → Outcome Reply → Type 0
SameOutcome pt fault fault = Unit {0}
SameOutcome pt fault reject = ⊥
SameOutcome pt fault (done r) = ⊥
SameOutcome pt reject fault = ⊥
SameOutcome pt reject reject = Unit {0}
SameOutcome pt reject (done r) = ⊥
SameOutcome pt (done r) fault = ⊥
SameOutcome pt (done r) reject = ⊥
SameOutcome pt (done r) (done r') = SameReply pt r r'

-- One test in both runs.
pub if-both :
    {A : Type 0} (R : A → A → Type 0) (b : Bool) {x y x' y' : A}
    → R x x'
    → R y y'
    → R (if b then x else y) (if b then x' else y')
if-both R true h h' = h
if-both R false h h' = h'

module _ (pt : List (List ℕ)) where
  pub bind-Same :
      {A : Type 0} (o : Outcome A) (f f' : A → Outcome Reply)
      → ((a : A) → SameOutcome pt (f a) (f' a))
      → SameOutcome pt (o >>= f) (o >>= f')
  bind-Same fault f f' h = tt
  bind-Same reject f f' h = tt
  bind-Same (done a) f f' h = h a

  pub range-Same :
      (address size : ℕ) (write : Bool) (o o' : Outcome Reply)
      → IsTables pt
      → (user_range (some pt) address size write ≡ done true → SameOutcome pt o o')
      → SameOutcome pt
          (user_range (some pt) address size write >>= λ allowed. require allowed >> o)
          (user_range (some pt) address size write >>= λ allowed. require allowed >> o')
  range-Same address size write o o' h same = elim (user_range-reads pt address size write h) [
    | inl passes ↦ rw passes (same passes)
    | inr stops ↦ rw stops tt
  ]

  pub copied-Agree :
      (memory memory' : ℕ → ℕ) (address : ℕ) (bytes : List ℕ)
      → Agree pt memory memory'
      → Agree pt (copied memory address bytes) (copied memory' address bytes)
  copied-Agree memory memory' address bytes same x h =
      elim (Bool-cases (leb address x && ltb x (address + length bytes))) [
        | inl inside ↦ rw inside refl
        | inr out ↦ rw out (same x h)
      ]

  pub string_loop-same :
      (left : ℕ) (memory memory' : ℕ → ℕ) (source i : ℕ)
      → IsTables pt
      → Agree pt memory memory'
      → string_loop left (some pt) memory source i ≡ string_loop left (some pt) memory' source i
  unfolding string_loop
  string_loop-same zero memory memory' source i h same = refl
  string_loop-same (suc left) memory memory' source i h same =
      elim (Bool-cases (ltb (2 ^ 64 - 1 - i) source)) [
        | inl over ↦ rw over refl
        | inr within ↦ rw within (elim (user_range-reads pt (source + i) 1 false h) [
          | inr stops ↦ rw stops refl
          | inl passes ↦
              let reads =
                user_range-may pt (source + i) 1 (source + i) false h passes (omega arith)
                  (omega arith) in
              rw
                (
                  passes,
                  same (source + i) reads,
                  string_loop-same left memory memory' source (i + 1) h same,
                )
                refl
        ])
      ]

  pub bytes_at-same :
      (memory memory' : ℕ → ℕ) (address n : ℕ)
      → ((x : ℕ) → address ≤ x → x < address + n → memory x ≡ memory' x)
      → bytes_at memory address n ≡ bytes_at memory' address n
  bytes_at-same memory memory' address zero same = refl
  bytes_at-same memory memory' address (suc n) same =
      rw
        (
          same address (omega arith) (omega arith),
          bytes_at-same memory memory' (address + 1) n
              (λ x from to. same x (omega arith) (omega arith)),
        )
        refl
