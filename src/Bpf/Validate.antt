-- ===== src/Bpf/Validate.antt =====
-- jordyOS/net/bpf_vm.c: `target` and `bpf_validate`.
use os_research_lab.Base.{
  ℕ, ◌+◌, ◌^◌, bit_and, List, [], ◌∷◌, some, none, Bool, true, false, not, ◌&&◌, ◌||◌, ltb, ◌==◌,
  ◌!=◌, length, if◌then◌else◌,
}
use os_research_lab.Bpf.{Insn, max_insns, bpf_maps, dst, src, cls, op, is_reg, landing}

-- `target`
unfoldable pub target : List Insn → ℕ → ℕ → Bool
unfolding landing
target code pc offset = elim (landing code (pc + 1) offset) [ none ↦ false | some next ↦ true ]

-- What the body of the loop decides of one instruction: `return false`, go on, go on with
-- `exit = true`, or check the second half of a wide load.
pub data Verdict : Type 0 where
  invalid fine exits wide : Verdict

unfoldable pub check_alu : Insn → Verdict
check_alu i =
    if (dst i == 10) || (i.offset != 0)
    then invalid
    else if op i == 0xd0
    then (if (cls i != 4)
          || (src i != 0)
          || (i.immediate != 16) && (i.immediate != 32) && (i.immediate != 64)
        then invalid
        else fine)
    else if ltb 0xc0 (op i) || (op i == 0x80) && is_reg i
    then invalid
    else if (if is_reg i then i.immediate != 0 else src i != 0)
    then invalid
    else if (op i == 0x80) && (i.immediate != 0)
    then invalid
    else fine

unfoldable pub check_memory : Insn → Verdict
check_memory i =
    if bit_and i.code 0xe0 != 0x60
    then invalid
    else if (cls i == 1) && ((dst i == 10) || (i.immediate != 0))
    then invalid
    else if (cls i == 2) && (src i != 0)
    then invalid
    else if (cls i == 3) && (i.immediate != 0)
    then invalid
    else fine

unfoldable pub check_jump : List Insn → ℕ → Insn → Verdict
unfolding target
check_jump code pc i =
    if op i == 0x80
    then (if (i.code != 0x85) || (i.regs != 0) || (i.offset != 0) || (i.immediate != 1)
        then invalid
        else fine)
    else if op i == 0x90
    then (if (i.code != 0x95) || (i.regs != 0) || (i.offset != 0) || (i.immediate != 0)
        then invalid
        else exits)
    else if ltb 0xd0 (op i) || (op i == 0xe0) || (op i == 0xf0)
    then invalid
    else if (if op i == 0
        then (i.code != 0x05) || (i.regs != 0) || (i.immediate != 0)
        else (if is_reg i then i.immediate != 0 else src i != 0))
    then invalid
    else if not (target code pc i.offset)
    then invalid
    else fine

unfoldable pub check_insn : List Insn → ℕ → Insn → Verdict
unfolding check_alu check_memory check_jump
check_insn code pc i =
    if ltb 10 (dst i) || ltb 10 (src i)
    then invalid
    else if i.code == 0x18
    then (if (dst i == 10) || (i.offset != 0) || ltb 1 (src i) then invalid else wide)
    else if (cls i == 4) || (cls i == 7)
    then check_alu i
    else if (cls i == 1) || (cls i == 2) || (cls i == 3)
    then check_memory i
    else if (cls i == 5) || (cls i == 6)
    then check_jump code pc i
    else invalid

-- The second half of a wide load; an `immediate` from 2^31 on is negative.
unfoldable pub check_high : Insn → Insn → Bool
check_high i high =
    (high.code == 0)
    && (high.regs == 0)
    && (high.offset == 0)
    && ((src i == 0)
        || ltb i.immediate (2 ^ 31) && ltb i.immediate bpf_maps && (high.immediate == 0))

-- The loop at `pc`, the list being the instructions from there on. The end of the list is
-- `pc >= count`.
unfoldable pub validate_from : List Insn → ℕ → List Insn → Bool → Bool
unfolding check_insn check_high
validate_from code pc [] exit = exit
validate_from code pc (i ∷ []) exit = elim (check_insn code pc i) [
  | invalid ↦ false
  | fine ↦ exit
  | exits ↦ true
  | wide ↦ false
]
validate_from code pc (i ∷ high ∷ rest) exit = elim (check_insn code pc i) [
  | invalid ↦ false
  | fine ↦ validate_from code (pc + 1) (high ∷ rest) exit
  | exits ↦ validate_from code (pc + 1) (high ∷ rest) true
  | wide ↦ check_high i high && validate_from code (pc + 2) rest exit
]

unfoldable pub bpf_validate : List Insn → Bool
unfolding validate_from
bpf_validate code =
    if (length code == 0) || ltb max_insns (length code)
    then false
    else validate_from code 0 code false
