-- ===== src/Bpf.antt =====
-- jordyOS/net/bpf_vm.h and bpf_vm.c: the eBPF interpreter of the firewall. Here the data that its
-- parts share; the parts are the validator (`Bpf.Validate`), the checked memory (`Bpf.Memory`), the
-- map lookup (`Bpf.Lookup`), the arithmetic (`Bpf.Divide`, `Bpf.Alu`) and the loop (`Bpf.Execute`).
pub mod Divide
pub mod Validate
pub mod Memory
pub mod Lookup
pub mod Alu
pub mod Execute
mod Tests
use os_research_lab.Base.{
  ℕ, ◌+◌, ◌-◌, ◌^◌, bit_and, List, Option, some, none, Bool, ltb, length, get_or, ◌==◌, not, ◌!=◌,
  ◌&&◌, ◌>>>◌, if◌then◌else◌,
}

-- `BpfInsn`. `offset` is the 16-bit and `immediate` the 32-bit pattern of the signed field.
pub record Insn : Type 0 where
  pub code : ℕ
  pub regs : ℕ
  pub offset : ℕ
  pub immediate : ℕ

abbrev pub max_insns : ℕ
max_insns = 4096

abbrev pub bpf_fuel : ℕ
bpf_fuel = 65536

abbrev pub bpf_maps : ℕ
bpf_maps = 7

abbrev pub bpf_ctx : ℕ
bpf_ctx = 0x10000000

abbrev pub bpf_data : ℕ
bpf_data = 0x20000000

abbrev pub bpf_stack : ℕ
bpf_stack = 0x30000000

abbrev pub bpf_values : ℕ
bpf_values = 0x40000000

abbrev pub bpf_handles : ℕ
bpf_handles = 0x80000000

-- The map types of the enumeration.
abbrev pub type_array : ℕ
type_array = 2

abbrev pub type_percpu_array : ℕ
type_percpu_array = 6

abbrev pub type_lpm : ℕ
type_lpm = 11

abbrev pub type_map_array : ℕ
type_map_array = 12

-- `BpfMap`. A pointer is null or the bytes that it points to.
pub record BpfMap : Type 0 where
  pub type : ℕ
  pub key_size : ℕ
  pub value_size : ℕ
  pub capacity : ℕ
  pub entries : ℕ
  pub values : Option (List ℕ)
  pub keys : Option (List ℕ)
  pub writable : Bool

-- `BpfEnvironment`
pub record Environment : Type 0 where
  pub context : List ℕ
  pub packet : List ℕ
  pub context_size : ℕ
  pub packet_size : ℕ
  pub maps : List BpfMap

-- `BpfResult`
pub record Result : Type 0 where
  pub ok : Bool
  pub value : ℕ
  pub steps : ℕ

-- The fields that `unsigned d, s, cls, op` hold, and the test of the source bit.
abbrev pub dst : Insn → ℕ
dst i = bit_and i.regs 15

abbrev pub src : Insn → ℕ
src i = i.regs >>> 4

abbrev pub cls : Insn → ℕ
cls i = bit_and i.code 7

abbrev pub op : Insn → ℕ
op i = bit_and i.code 0xf0

abbrev pub is_reg : Insn → Bool
is_reg i = bit_and i.code 8 != 0

-- `(int64_t)base + offset`, where it is not negative.
unfoldable pub displaced : ℕ → ℕ → Option ℕ
displaced base offset =
    if ltb offset (2 ^ 15)
    then some (base + offset)
    else if ltb base (2 ^ 16 - offset)
    then none
    else some (base - (2 ^ 16 - offset))

abbrev pub no_insn : Insn
no_insn = record { code = 0; regs = 0; offset = 0; immediate = 0 }

-- A jump target: inside the program, and not the second half of a wide load.
unfoldable pub landing : List Insn → ℕ → ℕ → Option ℕ
unfolding displaced
landing code base offset = elim (displaced base offset) [
  | none ↦ none
  | some next ↦
      if ltb next (length code) && not ((get_or code next no_insn).code == 0)
      then some next
      else none
]
