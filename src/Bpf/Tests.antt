-- ===== src/Bpf/Tests.antt =====
-- Examples for net/bpf_vm.c: a program of four instructions over one writable map.
use os_research_lab.Base.{
  ℕ, zero, suc, ◌+◌, ◌≤◌, ◌%◌, ◌/◌, ◌==◌, List, [], ◌∷◌, some, none, true, false, length, replicate,
  length-replicate, ◌≡◌, refl, arith, if◌then◌else◌,
}
use os_research_lab.Base.Fault.{Ensures}
use os_research_lab.Bpf.{Insn, BpfMap, Environment, bpf_stack}
use os_research_lab.Bpf.Divide.{divide, divide_lem}
use os_research_lab.Bpf.Memory.{stack_at, memory, map_at}
use os_research_lab.Bpf.Memory.Bounds.{IsMap, IsEnvironment, memory-fits}
use os_research_lab.Bpf.Execute.{start, step}
use os_research_lab.Bpf.Execute.Safety.{IsMachine, Goes, step-Goes, Stored-refl}

-- r2 = 0; *(u32 *)(r10 - 4) = r2; r0 = 2; exit
abbrev program : List Insn
program =
    record { code = 0xb7; regs = 2; offset = 0; immediate = 0 }
    ∷ record { code = 0x63; regs = 0x2a; offset = 65532; immediate = 0 }
    ∷ record { code = 0xb7; regs = 0; offset = 0; immediate = 2 }
    ∷ record { code = 0x95; regs = 0; offset = 0; immediate = 0 }
    ∷ []

abbrev counter_map : BpfMap
counter_map = record {
  type = 2;
  key_size = 4;
  value_size = 8;
  capacity = 2;
  entries = 0;
  values = some (replicate 16 0);
  keys = none;
  writable = true;
}

abbrev small : Environment
small = record {
  context = 1 ∷ 2 ∷ 3 ∷ 4 ∷ [];
  packet = [];
  context_size = 4;
  packet_size = 0;
  maps = counter_map ∷ [];
}

small-IsMap : (id : ℕ) → IsMap (map_at small id)
small-IsMap zero = record { values_fit = λ h. omega arith; keys_fit = λ h. cc }
small-IsMap (suc id) = record { values_fit = λ h. cc; keys_fit = λ h. cc }

small-IsEnvironment : IsEnvironment small
small-IsEnvironment = record {
  context_fits = omega arith;
  packet_fits = omega arith;
  each_map = small-IsMap;
}

small-IsMachine : IsMachine small (start small)
small-IsMachine = record {
  regs = refl;
  frame = refl;
  full = length-replicate {A = ℕ} 512 0;
  stored = Stored-refl small;
}

one_round : Ensures (Goes small) (step program (start small))
one_round = step-Goes small program (start small) small-IsEnvironment small-IsMachine (omega arith)

in_stack : memory small (bpf_stack + 504) 8 true ≡ some (stack_at 504)
unfolding memory
in_stack = refl

memory-fits_example : 504 + 8 ≤ length (replicate {A = ℕ} 512 0)
memory-fits_example =
    memory-fits small (replicate 512 0) (bpf_stack + 504) 8 true (stack_at 504) small-IsEnvironment
      (length-replicate {A = ℕ} 512 0) in_stack

divide_lem_example :
    (divide 1000 7 false ≡ (if 7 == 0 then 0 else 1000 / 7))
    × (divide 1000 7 true ≡ (if 7 == 0 then 1000 else 1000 % 7))
divide_lem_example = divide_lem 1000 7 (omega arith) (omega arith)
