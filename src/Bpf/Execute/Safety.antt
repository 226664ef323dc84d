-- ===== src/Bpf/Execute/Safety.antt =====
-- jordyOS/net/bpf_vm.c: the safety of a run of the interpreter, whatever the program is.
mod Stores
mod Lookups
mod Rounds
pub use Stores.{SameMap, Stored, Stored-refl}
pub use Rounds.{IsMachine, Goes, step-Goes}
use native.Mathlib.Decide.{dec_lt}
use os_research_lab.Base.{
  ℕ, zero, suc, ◌+◌, ◌≤◌, ◌<◌, List, Option, some, none, Bool, true, false, ltb, length, Bool-cases,
  replicate, length-replicate, ◌==◌, ◌||◌, ◌≡◌, refl, arith, inl, inr, if◌then◌else◌,
}
use os_research_lab.Base.Fault.{Outcome, fault, reject, done, Ensures}
use os_research_lab.Bpf.{Environment, Insn, Result, bpf_fuel, max_insns}
use os_research_lab.Bpf.Memory.Bounds.{IsEnvironment}
use os_research_lab.Bpf.Execute.{
  Machine, Next, running, exited, Run, stopped, resume, step, run, start, bpf_execute,
}

-- The run ended with no access out of bounds, after at most `most` rounds, and left the environment
-- as it was but for the bytes of writable maps.
pub record Ends (e : Environment) (most : ℕ) (result : Option Run) : Type 0 where
  pub out : Run
  pub returns : result ≡ some out
  pub stored : Stored e out.env
  pub bounded : out.result.steps ≤ most

resume-Ends :
    (e : Environment) (most steps : ℕ) (m : Machine) (o : Outcome Next)
    (next : Machine → Option Run)
    → steps ≤ most
    → IsMachine e m
    → Ensures (Goes e) o
    → ((m' : Machine) → IsMachine e m' → Ends e most (next m'))
    → Ends e most (resume steps m o next)
unfolding resume
resume-Ends e most steps m fault next low ok safe rest = absurd safe
resume-Ends e most steps m reject next low ok safe rest = record {
  out = _;
  returns = refl;
  stored = ok.stored;
  bounded = low;
}
resume-Ends e most steps m (done (exited v)) next low ok safe rest = record {
  out = _;
  returns = refl;
  stored = ok.stored;
  bounded = low;
}
resume-Ends e most steps m (done (running m')) next low ok safe rest = rest m' safe

run-Ends :
    (e : Environment) (code : List Insn) (left steps most : ℕ) (m : Machine)
    → IsEnvironment e
    → IsMachine e m
    → steps + left ≡ most
    → Ends e most (run code left steps m)
unfolding run
run-Ends e code zero steps most m valid ok total = record {
  out = _;
  returns = refl;
  stored = ok.stored;
  bounded = omega arith;
}
run-Ends e code (suc left) steps most m valid ok total =
    elim (Bool-cases (ltb m.pc (length code))) [
      | inr past ↦
          rw past (record { out = _; returns = refl; stored = ok.stored; bounded = omega arith })
      | inl here ↦ rw here (
          resume-Ends e most (steps + 1) m (step code m) _ (omega arith) ok
            (step-Goes e code m valid ok (ground arith))
            λ m' ok'. run-Ends e code left (steps + 1) most m' valid ok' (omega arith))
    ]

start-IsMachine : (e : Environment) → IsMachine e (start e)
start-IsMachine e = record {
  regs = refl;
  frame = refl;
  full = length-replicate {A = ℕ} 512 0;
  stored = Stored-refl e;
}

pub bpf_execute-Ends :
    (code : List Insn) (e : Environment) → IsEnvironment e → Ends e bpf_fuel (bpf_execute code e)
unfolding bpf_execute
bpf_execute-Ends code e valid =
    elim (Bool-cases ((length code == 0) || ltb max_insns (length code))) [
      | inl refused ↦
          rw refused
            (record { out = _; returns = refl; stored = Stored-refl e; bounded = omega arith })
      | inr runs ↦
          rw runs
            (run-Ends e code bpf_fuel 0 bpf_fuel (start e) valid (start-IsMachine e) (omega arith))
    ]
