-- ===== src/Firewall/Policy.antt =====
-- jordyOS/net/fw_bpf.c and `fw_accept` of firewall.c: a run of an eBPF program on the table, and the
-- verdict of the run.
pub mod Verdict
pub mod Early
use os_research_lab.Base.{
  ℕ, zero, suc, ◌+◌, ◌-◌, List, [], ◌∷◌, Option, some, none, Bool, true, false, not, ◌&&◌, ◌||◌,
  ltb, ◌==◌, ◌!=◌, get_or, set, min, u32, if◌then◌else◌,
}
use mathlib.Core.Option
use os_research_lab.Packet.{Packet, net_frame_max}
use os_research_lab.Bpf.{Environment, bpf_data}
use os_research_lab.Bpf.Memory.{map_at, bytes_of}
use os_research_lab.Bpf.Validate.{bpf_validate}
use os_research_lab.Bpf.Execute.{Run, bpf_execute}
use os_research_lab.Firewall.{FirewallRule, fw_rules, fw_in, fw_out}
use os_research_lab.Firewall.Prepare.{
  Metadata, Layout, Programs, FirewallBpfStats, State, words32, prepare,
}

-- `fw->rules[i].hits += (uint32_t)counters[i].packets`, for the rules from `i` on.
unfoldable pub add_hits : Layout → List ℕ → List FirewallRule → ℕ → ℕ → List FirewallRule
add_hits layout counters rules i zero = rules
add_hits layout counters [] i (suc left) = []
add_hits layout counters (r ∷ rules) i (suc left) =
    record r { hits = u32 (r.hits + u32 (layout.packets counters i)) }
    ∷ add_hits layout counters rules (i + 1) left

abbrev pub bump : ℕ → ℕ
bump n = u32 (n + 1)

-- `finish`
unfoldable pub finish : Layout → State → Run → Bool × State
unfolding add_hits
finish layout s run =
    let result = run.result in
    let stats : FirewallBpfStats = record s.stats { steps = u32 (s.stats.steps + result.steps) } in
    if not result.ok || (result.value != 1) && (result.value != 2)
    then (false, record s { stats = record stats { faults = bump stats.faults } })
    else (
      result.value == 2,
      record {
        fw = record s.fw {
          rules =
              add_hits layout (bytes_of (map_at run.env 2).values) s.fw.rules 0
                (min s.fw.count fw_rules);
        };
        stats = stats;
      },
    )

unfoldable pub fw_bpf_ready : Programs → Bool
fw_bpf_ready programs = bpf_validate programs.policy_code && bpf_validate programs.xdp_code

abbrev pub refused : State → Bool × State
refused s = (false, record s { stats = record s.stats { faults = bump s.stats.faults } })

abbrev pub metadata_of : Packet → ℕ → Metadata
metadata_of p direction = record {
  direction = direction + 1;
  proto = p.protocol;
  sport = p.source_port;
  dport = p.destination_port;
  len = p.length;
  src = p.source;
  dst = p.destination;
}

abbrev pub no_metadata : Metadata
no_metadata = record { direction = 0; proto = 0; sport = 0; dport = 0; len = 0; src = 0; dst = 0 }

-- `none` is an access out of bounds in the interpreter.
unfoldable pub fw_bpf_policy : Layout → Programs → State → Packet → ℕ → Option (Bool × State)
fw_bpf_policy layout programs s p direction =
    if not (fw_bpf_ready programs) || ltb fw_rules s.fw.count
    then some (refused s)
    else (let s' : State = record s {
      stats = record s.stats { policy_runs = bump s.stats.policy_runs };
    } in
        Option.map (finish layout s')
          (bpf_execute programs.policy_code (prepare layout s.fw (metadata_of p direction))))

abbrev pub xdp_context : ℕ → List ℕ
xdp_context size = words32 6 (bpf_data ∷ (bpf_data + size) ∷ bpf_data ∷ 1 ∷ 0 ∷ 0 ∷ [])

-- What `fw_bpf_xdp` does with the verdict.
unfoldable pub count_drop : Bool × State → Bool × State
count_drop (pass, s) = if pass then (true, s) else (
  false,
  record {
    fw = record s.fw { denied = set s.fw.denied fw_in (bump (get_or s.fw.denied fw_in 0)) };
    stats = record s.stats { xdp_drops = bump s.stats.xdp_drops };
  },
)

unfoldable pub fw_bpf_xdp : Layout → Programs → State → List ℕ → ℕ → Option (Bool × State)
fw_bpf_xdp layout programs s frame size =
    if not (fw_bpf_ready programs) || ltb net_frame_max size || ltb fw_rules s.fw.count
    then some (refused s)
    else (let s' : State = record s {
      stats = record s.stats { xdp_runs = bump s.stats.xdp_runs };
    } in
        let env : Environment = record (prepare layout s.fw no_metadata) {
          context = xdp_context size;
          context_size = 24;
          packet = frame;
          packet_size = size;
        } in
        Option.map (λ run. count_drop (finish layout s' run)) (bpf_execute programs.xdp_code env))

-- The counters of `fw_accept`.
unfoldable pub count_verdict : ℕ → Bool × State → Bool × State
count_verdict direction (allow, s) = (
  allow,
  record s {
    fw =
        if allow
        then record s.fw {
          allowed = set s.fw.allowed direction (bump (get_or s.fw.allowed direction 0));
        }
        else record s.fw {
          denied = set s.fw.denied direction (bump (get_or s.fw.denied direction 0));
        };
  },
)

unfoldable pub fw_accept : Layout → Programs → State → Packet → ℕ → Option (Bool × State)
fw_accept layout programs s p direction =
    if ltb fw_out direction
    then some (false, s)
    else Option.map (count_verdict direction) (fw_bpf_policy layout programs s p direction)
