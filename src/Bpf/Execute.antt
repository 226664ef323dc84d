-- ===== src/Bpf/Execute.antt =====
-- jordyOS/net/bpf_vm.c: `bpf_execute`. One round of its loop is `step`; `reject` is an early
-- `return result` with `ok` false, and `fault` an access outside the arrays of the environment.
pub mod Safety
use os_research_lab.Base.{
  ℕ, zero, suc, ◌+◌, ◌-◌, ◌*◌, ◌/◌, ◌%◌, ◌^◌, bit_and, List, [], ◌∷◌, Option, some, none, Bool,
  true, false, not, ◌&&◌, ◌||◌, ltb, leb, ◌==◌, ◌!=◌, length, get_elem?, get_or, set, replicate,
  u32, u64, extend16, extend32, ◌<<<◌, if◌then◌else◌,
}
use os_research_lab.Base.Fault.{Outcome, fault, reject, done, load, require, ◌>>=◌, ◌>>◌}
use os_research_lab.Bpf.{
  Insn, Environment, Result, max_insns, bpf_fuel, bpf_maps, bpf_ctx, bpf_stack, bpf_handles, dst,
  src, cls, op, is_reg, landing,
}
use os_research_lab.Bpf.Memory.{
  read_le, store_from, memory, region, pointer, offset_of, write_back, allowed,
}
use os_research_lab.Bpf.Lookup.{lookup}
use os_research_lab.Bpf.Alu.{alu, convert, condition}

-- The variables of the loop.
pub record Machine : Type 0 where
  pub pc : ℕ
  pub r : List ℕ
  pub stack : List ℕ
  pub env : Environment

pub data Next : Type 0 where
  running : Machine → Next
  exited : ℕ → Next

abbrev pub reg : Machine → ℕ → ℕ
reg m k = get_or m.r k 0

-- `r[k] = v`
abbrev pub with_reg : Machine → ℕ → ℕ → Machine
with_reg m k v = record m { r = set m.r k v }

-- `i.code == 0x18`, after `pc++`.
unfoldable pub step_wide : List Insn → Insn → Machine → Outcome Next
step_wide code i m = do
  require (not (leb (length code) m.pc || (dst i == 10) || ltb 1 (src i)))
  high ← load (get_elem? code m.pc)
  let value = i.immediate + (high.immediate <<< 32)
  let m' = record m { pc = m.pc + 1 }
  elim (src i != 0) [
    | false ↦ done (running (with_reg m' (dst i) value))
    | true ↦ do
      require (not (leb bpf_maps value))
      done (running (with_reg m' (dst i) (u64 (value + bpf_handles))))
  ]

-- The second operand of an arithmetic instruction or a jump.
abbrev pub operand : Insn → Machine → ℕ
operand i m = if is_reg i then reg m (src i) else extend32 i.immediate

unfoldable pub step_alu : Insn → Machine → Outcome Next
step_alu i m = do
  require (not (dst i == 10))
  let wide = cls i == 7
  let a = if wide then reg m (dst i) else u32 (reg m (dst i))
  let b = if wide then operand i m else u32 (operand i m)
  elim (op i == 0xd0) [
    | true ↦ do
      require (not (wide || (i.immediate != 16) && (i.immediate != 32) && (i.immediate != 64)))
      done (running (with_reg m (dst i) (convert (is_reg i) i.immediate (reg m (dst i)))))
    | false ↦ do
      result ← alu wide (op i) a b
      done (running (with_reg m (dst i) (if wide then result else u32 result)))
  ]

abbrev pub access_size : Insn → ℕ
access_size i =
    let bits = bit_and i.code 0x18 in
    if bits == 0 then 4 else if bits == 8 then 2 else if bits == 16 then 1 else 8

-- Loads, and stores of a register or of an immediate.
unfoldable pub step_memory : Insn → Machine → Outcome Next
step_memory i m = do
  require (not ((bit_and i.code 0xe0 != 0x60) || (cls i == 1) && (dst i == 10)))
  let size = access_size i
  let base = if cls i == 1 then src i else dst i
  let address = u64 (reg m base + extend16 i.offset)
  place ← allowed (memory m.env address size (cls i != 1))
  elim (cls i == 1) [
    | true ↦ do
      value ← read_le (pointer m.env m.stack place) size
      done (running (with_reg m (dst i) value))
    | false ↦ do
      let value = if cls i == 3 then reg m (src i) else extend32 i.immediate
      bytes ← store_from (region m.env m.stack place) (offset_of place) size 0 value
      let (stack, env) = write_back m.env m.stack place bytes
      done (running (record m { stack = stack; env = env }))
  ]

-- `for (reg = 1; reg <= 5; reg++) r[reg] = 0`
abbrev pub clear_arguments : List ℕ → List ℕ
clear_arguments r = set (set (set (set (set r 1 0) 2 0) 3 0) 4 0) 5 0

-- `i.code == 0x85`
unfoldable pub step_call : Insn → Machine → Outcome Next
step_call i m = do
  require (i.immediate == 1)
  found ← lookup m.env m.stack (reg m 1) (reg m 2)
  done (running (record m { r = clear_arguments (set m.r 0 found) }))

-- The jumps.
unfoldable pub step_branch : List Insn → Insn → Machine → Outcome Next
step_branch code i m = do
  let short = cls i == 6
  let a = if short then u32 (reg m (dst i)) else reg m (dst i)
  let b = if short then u32 (operand i m) else operand i m
  jump ← condition short (op i) a b
  elim jump [
    | false ↦ done (running m)
    | true ↦ elim (landing code m.pc i.offset) [
      | none ↦ reject
      | some next ↦ done (running (record m { pc = next }))
    ]
  ]

unfoldable pub step_jump : List Insn → Insn → Machine → Outcome Next
step_jump code i m =
    if i.code == 0x95
    then done (exited (reg m 0))
    else if i.code == 0x85
    then step_call i m
    else step_branch code i m

-- The body of the loop at an instruction, after `pc++`.
unfoldable pub dispatch : List Insn → Insn → Machine → Outcome Next
dispatch code i m =
    if ltb 10 (dst i) || ltb 10 (src i)
    then reject
    else if i.code == 0x18
    then step_wide code i m
    else if (cls i == 4) || (cls i == 7)
    then step_alu i m
    else if (cls i == 1) || (cls i == 2) || (cls i == 3)
    then step_memory i m
    else if (cls i == 5) || (cls i == 6)
    then step_jump code i m
    else reject

unfoldable pub step : List Insn → Machine → Outcome Next
step code m = do i ← load (get_elem? code m.pc); dispatch code i (record m { pc = m.pc + 1 })

-- What a run leaves: the result and the environment, whose map values the program may have written.
pub record Run : Type 0 where
  pub result : Result
  pub env : Environment

abbrev pub stopped : ℕ → Machine → Run
stopped steps m = record { result = record { ok = false; value = 0; steps = steps }; env = m.env }

-- What the loop makes of a round, and `next`, the rounds that follow. `none` is an access out of
-- bounds.
unfoldable pub resume : ℕ → Machine → Outcome Next → (Machine → Option Run) → Option Run
resume steps m fault next = none
resume steps m reject next = some (stopped steps m)
resume steps m (done (exited value)) next =
    some (record { result = record { ok = true; value = value; steps = steps }; env = m.env })
resume steps m (done (running m')) next = next m'

-- The loop with `left` rounds of fuel; `steps` are done.
unfoldable pub run : List Insn → ℕ → ℕ → Machine → Option Run
run code zero steps m = some (stopped steps m)
run code (suc left) steps m =
    if ltb m.pc (length code)
    then resume (steps + 1) m (step code m) (λ m'. run code left (steps + 1) m')
    else some (stopped steps m)

-- Eleven registers, with the context in r1 and the end of the stack in r10.
abbrev pub first_regs : List ℕ
first_regs = 0 ∷ bpf_ctx ∷ 0 ∷ 0 ∷ 0 ∷ 0 ∷ 0 ∷ 0 ∷ 0 ∷ 0 ∷ (bpf_stack + 512) ∷ []

abbrev pub start : Environment → Machine
start env = record { pc = 0; r = first_regs; stack = replicate 512 0; env = env }

unfoldable pub bpf_execute : List Insn → Environment → Option Run
bpf_execute code env =
    if (length code == 0) || ltb max_insns (length code)
    then some (stopped 0 (start env))
    else run code bpf_fuel 0 (start env)
