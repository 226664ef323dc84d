-- ===== src/Bpf/Execute/Safety/Rounds.antt =====
-- jordyOS/net/bpf_vm.c: the shape of the machine over one round of the interpreter's loop.
use os_research_lab.Base.{
  ℕ, ◌+◌, ◌<◌, List, Bool, true, not, ◌||◌, ◌&&◌, ltb, leb, ◌==◌, ◌!=◌, length, get_elem?, get_or,
  set, length-set, length-drop_add, get_elem?-ne-none, get_or-set_ne, get_or-set, Option-cases,
  Bool-cases, bit_and, u64, extend16, extend32, ◌<<<◌, ◌≡◌, ◌≢◌, inl, inr, ◌∙◌, arith,
  if◌then◌else◌,
}
use os_research_lab.Base.Fault.{Ensures, >>=-Ensures, require-Ensures, load-Ensures}
use os_research_lab.Bpf.{Environment, Insn, bpf_stack, bpf_maps, dst, src, cls, op, landing}
use os_research_lab.Bpf.Memory.{read_le, store_from, memory, region, pointer, offset_of, allowed}
use os_research_lab.Bpf.Memory.Bounds.{IsEnvironment, read_le-Ensures, store_from-Ensures}
use os_research_lab.Bpf.Lookup.{lookup}
use os_research_lab.Bpf.Alu.{alu, condition}
use os_research_lab.Bpf.Execute.{
  Machine, Next, running, exited, reg, with_reg, step_wide, step_alu, step_memory, step_jump,
  step_call, step_branch, access_size, clear_arguments, dispatch, step,
}
use os_research_lab.Bpf.Execute.Safety.Stores.{
  Stored, Stored-trans, IsEnvironment-Stored, write_back-Stored,
}
use os_research_lab.Bpf.Execute.Safety.Lookups.{allowed-Ensures, lookup-Ensures}

-- The machine has its registers and its stack, r10 is the end of the stack, and its environment is
-- `e` but for the bytes of writable maps.
pub record IsMachine (e : Environment) (m : Machine) : Type 0 where
  pub regs : length m.r ≡ 11
  pub frame : get_or m.r 10 0 ≡ bpf_stack + 512
  pub full : length m.stack ≡ 512
  pub stored : Stored e m.env

abbrev pub Goes : Environment → Next → Type 0
Goes e (running m) = IsMachine e m
Goes e (exited value) = Unit {0}

with_reg-IsMachine :
    (e : Environment) (m : Machine) (k v : ℕ)
    → IsMachine e m
    → k ≢ 10
    → IsMachine e (with_reg m k v)
with_reg-IsMachine e m k v ok ne = record {
  regs = length-set m.r k v ∙ ok.regs;
  frame = get_or-set_ne m.r k 10 v 0 ne ∙ ok.frame;
  full = ok.full;
  stored = ok.stored;
}

at_pc-IsMachine :
    (e : Environment) (m : Machine) (pc : ℕ) → IsMachine e m → IsMachine e (record m { pc = pc })
at_pc-IsMachine e m pc ok = record {
  regs = ok.regs;
  frame = ok.frame;
  full = ok.full;
  stored = ok.stored;
}

-- The call of the helper leaves r10.
frame-clear : (r : List ℕ) (v : ℕ) → get_or (clear_arguments (set r 0 v)) 10 0 ≡ get_or r 10 0
frame-clear r v = simp (get_or-set)

alu-Ensures : (wide : Bool) (op a b : ℕ) → Ensures (λ _. Unit {0}) (alu wide op a b)
unfolding alu
alu-Ensures wide op a b = ground arith

condition-Ensures : (short : Bool) (op a b : ℕ) → Ensures (λ _. Unit {0}) (condition short op a b)
unfolding condition
condition-Ensures short op a b = ground arith

module _ (e : Environment) (code : List Insn) (i : Insn) (m : Machine) (ok : IsMachine e m) where
  step_wide-Goes : Ensures (Goes e) (step_wide code i m)
  unfolding step_wide
  step_wide-Goes =
      require-Ensures _ (not (leb (length code) m.pc || (dst i == 10) || ltb 1 (src i))) _ λ there.
        let in_range : (m.pc < length code) × (dst i ≢ 10) = ground arith in
        load-Ensures _ (get_elem? code m.pc) _ (get_elem?-ne-none code m.pc in_range.0) λ high _.
          let m' : Machine = record m { pc = m.pc + 1 } in
          let next : (v : ℕ) → IsMachine e (with_reg m' (dst i) v) =
            λ v. with_reg-IsMachine e m' (dst i) v (at_pc-IsMachine e m (m.pc + 1) ok) in_range.1 in
          elim (Bool-cases (src i != 0)) [
            | inr plain ↦ rw plain (next _)
            | inl handle ↦ rw handle (
                require-Ensures _ (not (leb bpf_maps (i.immediate + (high.immediate <<< 32)))) _
                  λ _. next _)
          ]

  step_alu-Goes : Ensures (Goes e) (step_alu i m)
  unfolding step_alu
  step_alu-Goes = require-Ensures _ (not (dst i == 10)) _ λ there.
      let ne : dst i ≢ 10 = ground arith in
      elim (Bool-cases (op i == 0xd0)) [
        | inl swap ↦ rw swap (
            require-Ensures _
              (not
                ((cls i == 7) || (i.immediate != 16) && (i.immediate != 32) && (i.immediate != 64)))
              _ λ _. with_reg-IsMachine e m (dst i) _ ok ne)
        | inr other ↦ rw other (
            >>=-Ensures (λ _. Unit {0}) _ (alu (cls i == 7) (op i) _ _) _
              (alu-Ensures (cls i == 7) (op i) _ _)
              λ result _. with_reg-IsMachine e m (dst i) _ ok ne)
      ]

  step_memory-Goes : IsEnvironment e → Ensures (Goes e) (step_memory i m)
  unfolding step_memory
  step_memory-Goes valid =
      let valid' = IsEnvironment-Stored e m.env valid ok.stored in
      let size = access_size i in
      let address = u64 (reg m (if cls i == 1 then src i else dst i) + extend16 i.offset) in
      require-Ensures _ (not ((bit_and i.code 0xe0 != 0x60) || (cls i == 1) && (dst i == 10))) _
        λ fine.
          >>=-Ensures _ _ (allowed (memory m.env address size (cls i != 1))) _
            (allowed-Ensures m.env m.stack address size (cls i != 1) valid' ok.full)
            λ place there. elim (Bool-cases (cls i == 1)) [
              | inl load' ↦ rw load' (
                  let ne : dst i ≢ 10 = ground arith in
                  >>=-Ensures (λ _. Unit {0}) _ (read_le (pointer m.env m.stack place) size) _
                    (read_le-Ensures _ size
                      (length-drop_add (offset_of place) size (region m.env m.stack place) there.1))
                    λ value _. with_reg-IsMachine e m (dst i) value ok ne)
              | inr store ↦ rw store (
                  let writes : (cls i != 1) ≡ true = ground arith in
                  >>=-Ensures _ _
                    (store_from (region m.env m.stack place) (offset_of place) size 0
                      (if cls i == 3 then reg m (src i) else extend32 i.immediate))
                    _
                    (store_from-Ensures (region m.env m.stack place) (offset_of place) size _
                      there.1)
                    λ bytes long.
                      let kept =
                        write_back-Stored m.env m.stack address size place bytes
                          (rw writes at there.0) long in
                      record {
                        regs = ok.regs;
                        frame = ok.frame;
                        full = kept.0 ∙ ok.full;
                        stored = Stored-trans e m.env _ ok.stored kept.1;
                      })
            ]

  step_call-Goes : IsEnvironment e → Ensures (Goes e) (step_call i m)
  unfolding step_call
  step_call-Goes valid = require-Ensures _ (i.immediate == 1) _ λ _.
      >>=-Ensures (λ _. Unit {0}) _ (lookup m.env m.stack (reg m 1) (reg m 2)) _
        (lookup-Ensures m.env m.stack (reg m 1) (reg m 2)
          (IsEnvironment-Stored e m.env valid ok.stored) ok.full)
        λ found _. record {
          regs = simp length-set ok.regs;
          frame = frame-clear m.r found ∙ ok.frame;
          full = ok.full;
          stored = ok.stored;
        }

  step_branch-Goes : Ensures (Goes e) (step_branch code i m)
  unfolding step_branch
  step_branch-Goes =
      >>=-Ensures (λ _. Unit {0}) _ (condition (cls i == 6) (op i) _ _) _
        (condition-Ensures (cls i == 6) (op i) _ _)
        λ jump _. elim (Bool-cases jump) [
          | inr falls ↦ rw falls ok
          | inl taken ↦ rw taken (elim (Option-cases (landing code m.pc i.offset)) [
            | inl nowhere ↦ rw nowhere tt
            | inr (next, there) ↦ rw there (at_pc-IsMachine e m next ok)
          ])
        ]

  step_jump-Goes : IsEnvironment e → Ensures (Goes e) (step_jump code i m)
  unfolding step_jump
  step_jump-Goes valid = ground (arith, step_call-Goes valid, step_branch-Goes)

  dispatch-Goes : IsEnvironment e → Ensures (Goes e) (dispatch code i m)
  unfolding dispatch
  dispatch-Goes valid =
      ground (arith, step_wide-Goes, step_alu-Goes, step_memory-Goes valid, step_jump-Goes valid)

-- From a machine of that shape a round reads and writes nothing out of bounds, and what it goes on
-- with has the shape again.
pub step-Goes :
    (e : Environment) (code : List Insn) (m : Machine)
    → IsEnvironment e
    → IsMachine e m
    → m.pc < length code
    → Ensures (Goes e) (step code m)
unfolding step
step-Goes e code m valid ok here =
    load-Ensures _ (get_elem? code m.pc) _ (get_elem?-ne-none code m.pc here) λ i _.
      dispatch-Goes e code i (record m { pc = m.pc + 1 }) (at_pc-IsMachine e m (m.pc + 1) ok) valid
