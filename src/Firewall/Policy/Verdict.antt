-- ===== src/Firewall/Policy/Verdict.antt =====
-- jordyOS/net/firewall.c and fw_bpf.c: the verdicts of the firewall.
use mathlib.Core.Option
use os_research_lab.Base.{
  ℕ, zero, suc, ◌*◌, ◌≤◌, List, [], ◌∷◌, some, Bool, true, false, not, ◌||◌, ltb, length, get_or,
  set, length-replicate, length-take, min, Bool-cases, ◌≡◌, ◌⊎◌, inl, inr, refl, ap, arith,
  if◌then◌else◌,
}
use os_research_lab.Packet.{Packet}
use os_research_lab.Bpf.{BpfMap, Environment}
use os_research_lab.Bpf.Memory.{null_map}
use os_research_lab.Bpf.Memory.Bounds.{IsMap, IsEnvironment}
use os_research_lab.Bpf.Execute.{Run, bpf_execute}
use os_research_lab.Bpf.Execute.Safety.{bpf_execute-Ends}
use os_research_lab.Firewall.Entries.{fill}
use os_research_lab.Firewall.Prepare.{Layout, Metadata, Programs, State, prepare, rules_of, words32}
use os_research_lab.Firewall.{Firewall, fw_rules, fw_out}
use os_research_lab.Firewall.Policy.{
  xdp_context, finish, fw_bpf_ready, fw_bpf_policy, metadata_of, no_metadata, bump, refused,
  count_verdict, fw_accept,
}
use os_research_lab.Firewall.Entries.Order.{fill_lem}

length-words32 : (n : ℕ) (xs : List ℕ) → length (words32 n xs) ≡ n * 4
length-words32 zero xs = omega arith
length-words32 (suc n) [] = omega (arith, length-words32 n [])
length-words32 (suc n) (x ∷ xs) = omega (arith, length-words32 n xs)

length-rules_of : (fw : Firewall) → length (rules_of fw) ≤ fw_rules
length-rules_of fw = omega (arith, length-take (min fw.count fw_rules) fw.rules)

abbrev EachIsMap : List BpfMap → Type 0
EachIsMap [] = Unit {0}
EachIsMap (m ∷ ms) = IsMap m × EachIsMap ms

null_map-IsMap : IsMap null_map
null_map-IsMap = record { values_fit = λ h. cc; keys_fit = λ h. cc }

get_or-IsMap : (ms : List BpfMap) (id : ℕ) → EachIsMap ms → IsMap (get_or ms id null_map)
get_or-IsMap [] id h = null_map-IsMap
get_or-IsMap (m ∷ ms) zero h = h.0
get_or-IsMap (m ∷ ms) (suc id) h = get_or-IsMap ms id h.1

-- The maps that `prepare` builds have arrays as long as they say.
prepare-EachIsMap :
    (layout : Layout) (fw : Firewall) (m : Metadata) → EachIsMap (prepare layout fw m).maps
unfolding prepare
prepare-EachIsMap layout fw m =
    let t = fill (rules_of fw) in
    let (_, entries, _, blocked, positions) = fill_lem (rules_of fw) in
    let few = length-rules_of fw in
    (
      record {
        values_fit = λ _. omega (arith, layout.length-policy_bytes _ t.entries (omega arith));
        keys_fit = λ h. cc;
      },
      (
        record { values_fit = λ _. omega arith; keys_fit = λ h. cc },
        (
          record {
            values_fit = λ _. omega (arith, length-replicate {A = ℕ} (48 * layout.counter_size) 0);
            keys_fit = λ h. cc;
          },
          (
            record {
              values_fit = λ _. omega (arith, length-words32 32 t.indexes);
              keys_fit = λ _. omega (arith, layout.length-prefix_bytes t.blocked (omega arith));
            },
            (
              record {
                values_fit = λ _. omega (arith, length-words32 32 t.indexes);
                keys_fit = λ _. omega arith;
              },
              (
                record { values_fit = λ _. omega arith; keys_fit = λ h. cc },
                (
                  record {
                    values_fit = λ _. omega (arith, layout.length-metadata_bytes m);
                    keys_fit = λ h. cc;
                  },
                  tt,
                ),
              ),
            ),
          ),
        ),
      ),
    )

pub prepare-IsEnvironment :
    (layout : Layout) (fw : Firewall) (m : Metadata) → IsEnvironment (prepare layout fw m)
unfolding prepare
prepare-IsEnvironment layout fw m = record {
  context_fits = omega arith;
  packet_fits = omega arith;
  each_map = λ id. get_or-IsMap (prepare layout fw m).maps id (prepare-EachIsMap layout fw m);
}

-- The frame and its descriptor in front of the same maps.
abbrev pub xdp_environment : Layout → Firewall → List ℕ → ℕ → Environment
xdp_environment layout fw frame size = record (prepare layout fw no_metadata) {
  context = xdp_context size;
  context_size = 24;
  packet = frame;
  packet_size = size;
}

pub xdp-IsEnvironment :
    (layout : Layout) (fw : Firewall) (frame : List ℕ) (size : ℕ)
    → size ≤ length frame
    → IsEnvironment (xdp_environment layout fw frame size)
xdp-IsEnvironment layout fw frame size h = record {
  context_fits = omega arith;
  packet_fits = h;
  each_map = (prepare-IsEnvironment layout fw no_metadata).each_map;
}

-- A passing verdict is the value 2 of a run that ended by the program's exit.
pub finish-closed :
    (layout : Layout) (s : State) (run : Run)
    → (finish layout s run).0 ≡ true
    → (run.result.ok ≡ true) × (run.result.value ≡ 2)
unfolding finish
finish-closed layout s run h = ground arith

-- What a call of `fw_accept` does to the two counters of its direction.
abbrev pub Counted : Bool → ℕ → State → State → Type 0
Counted allow direction s s' =
    if allow
    then (s'.fw.allowed ≡ set s.fw.allowed direction (bump (get_or s.fw.allowed direction 0)))
      × (s'.fw.denied ≡ s.fw.denied)
    else (s'.fw.denied ≡ set s.fw.denied direction (bump (get_or s.fw.denied direction 0)))
      × (s'.fw.allowed ≡ s.fw.allowed)

-- Why a packet may pass: the programs are validated, the table is in bounds, and the policy program
-- ended by its exit with the value 2.
pub record Passed (layout : Layout) (programs : Programs) (s : State) (p : Packet) (direction : ℕ)
    : Type 0 where
  pub ready : fw_bpf_ready programs ≡ true
  pub bounded : s.fw.count ≤ fw_rules
  pub run : Run
  pub returns :
      bpf_execute programs.policy_code (prepare layout s.fw (metadata_of p direction)) ≡ some run
  pub exited : run.result.ok ≡ true
  pub verdict : run.result.value ≡ 2

pub finish-counters :
    (layout : Layout) (s : State) (run : Run)
    → ((finish layout s run).1.fw.allowed ≡ s.fw.allowed)
      × ((finish layout s run).1.fw.denied ≡ s.fw.denied)
unfolding finish
finish-counters layout s run = ground arith

fw_bpf_policy_lem :
    (layout : Layout) (programs : Programs) (s : State) (p : Packet) (direction : ℕ)
    → (out : Bool × State) × (fw_bpf_policy layout programs s p direction ≡ some out)
      × (out.1.fw.allowed ≡ s.fw.allowed)
      × (out.1.fw.denied ≡ s.fw.denied)
      × ((out.0 ≡ false) ⊎ Passed layout programs s p direction)
unfolding fw_bpf_policy
fw_bpf_policy_lem layout programs s p direction =
    elim (Bool-cases (not (fw_bpf_ready programs) || ltb fw_rules s.fw.count)) [
      | inl no' ↦ (refused s, rw no', refl, refl, inl refl)
      | inr go ↦
          let s' : State = record s {
            stats = record s.stats { policy_runs = bump s.stats.policy_runs };
          } in
          let env = prepare layout s.fw (metadata_of p direction) in
          let ends =
            bpf_execute-Ends programs.policy_code env (prepare-IsEnvironment layout s.fw _) in
          let kept = finish-counters layout s' ends.out in
          (
            finish layout s' ends.out,
            rw (go, ends.returns),
            kept.0,
            kept.1,
            elim (Bool-cases (finish layout s' ends.out).0) [
              | inr fails ↦ inl fails
              | inl passes ↦
                  let closed = finish-closed layout s' ends.out passes in
                  inr (record {
                    ready = ground arith;
                    bounded = ground arith;
                    run = ends.out;
                    returns = ends.returns;
                    exited = closed.0;
                    verdict = closed.1;
                  })
            ],
          )
    ]

-- Whatever the programs are, `fw_accept` decides every packet with no access out of bounds. For a
-- direction that exists it adds one to that direction's counter of the verdict and leaves the
-- other counters; for another it refuses and counts nothing. It accepts only when both programs
-- are validated, the table has at most 32 rules, and the run of the policy program on this table
-- and packet ended by its exit with the value 2.
pub fw_accept_lem :
    (layout : Layout) (programs : Programs) (s : State) (p : Packet) (direction : ℕ)
    → (allow : Bool) × (s' : State) × (fw_accept layout programs s p direction ≡ some (allow, s'))
      × (if ltb fw_out direction then (allow ≡ false) × (s' ≡ s) else Counted allow direction s s')
      × ((allow ≡ false) ⊎ Passed layout programs s p direction)
unfolding fw_accept count_verdict
fw_accept_lem layout programs s p direction = elim (Bool-cases (ltb fw_out direction)) [
  | inl no' ↦ rw no' (false, s, refl, (refl, refl), inl refl)
  | inr go ↦ rw go (counted (fw_bpf_policy_lem layout programs s p direction))
]
  where
    counted :
        ((out : Bool × State) × (fw_bpf_policy layout programs s p direction ≡ some out)
          × (out.1.fw.allowed ≡ s.fw.allowed)
          × (out.1.fw.denied ≡ s.fw.denied)
          × ((out.0 ≡ false) ⊎ Passed layout programs s p direction))
        → (allow : Bool) × (s' : State) × (Option.map
              (count_verdict direction)
              (fw_bpf_policy layout programs s p direction)
            ≡ some (allow, s'))
          × Counted allow direction s s'
          × ((allow ≡ false) ⊎ Passed layout programs s p direction)
    counted ((true, s'), returns, allowed, denied, passed) = (
      true,
      (count_verdict direction (true, s')).1,
      rw returns,
      (ap (λ (l : List ℕ). set l direction (bump (get_or l direction 0))) allowed, denied),
      passed,
    )
    counted ((false, s'), returns, allowed, denied, passed) = (
      false,
      (count_verdict direction (false, s')).1,
      rw returns,
      (ap (λ (l : List ℕ). set l direction (bump (get_or l direction 0))) denied, allowed),
      passed,
    )
