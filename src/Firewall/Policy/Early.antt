-- ===== src/Firewall/Policy/Early.antt =====
-- jordyOS/net/fw_bpf.c: the early path, `fw_bpf_xdp`, on a received frame.
use os_research_lab.Base.{
  ℕ, ◌≤◌, List, some, Bool, true, false, not, ◌&&◌, ◌||◌, ltb, leb, length, get_or, set, Bool-cases,
  ◌≡◌, ◌⊎◌, inl, inr, refl, arith, if◌then◌else◌,
}
use os_research_lab.Packet.{net_frame_max}
use os_research_lab.Bpf.Execute.{Run, bpf_execute}
use os_research_lab.Bpf.Execute.Safety.{bpf_execute-Ends}
use os_research_lab.Firewall.Prepare.{Layout, Programs, State}
use os_research_lab.Firewall.{fw_rules, fw_in}
use os_research_lab.Firewall.Policy.{finish, fw_bpf_ready, fw_bpf_xdp, bump, refused, count_drop}
use os_research_lab.Firewall.Policy.Verdict.{
  xdp_environment, xdp-IsEnvironment, finish-closed, finish-counters,
}

-- Whether the early path runs its program at all.
abbrev pub runs : Programs → State → ℕ → Bool
runs programs s size = fw_bpf_ready programs && leb size net_frame_max && leb s.fw.count fw_rules

-- Why a frame may go on: the early program ran on it and ended by its exit with the value 2.
pub record Cleared (layout : Layout) (programs : Programs) (s : State) (frame : List ℕ) (size : ℕ)
    : Type 0 where
  pub run : Run
  pub returns : bpf_execute programs.xdp_code (xdp_environment layout s.fw frame size) ≡ some run
  pub exited : run.result.ok ≡ true
  pub verdict : run.result.value ≡ 2

-- What the early path leaves of the counters: a drop by the program is counted as an incoming
-- denial, and nothing else is.
abbrev pub Drops : Bool → State → State → Type 0
Drops pass s s' =
    (s'.fw.allowed ≡ s.fw.allowed)
    × (s'.fw.denied
        ≡ (if pass then s.fw.denied else set s.fw.denied fw_in (bump (get_or s.fw.denied fw_in 0))))

-- `fw_bpf_xdp` decides every frame whose declared size its bytes have, with no access out of
-- bounds. When a program is not validated, the frame is too long or the table has more than 32
-- rules, it refuses, counts a fault and no denial. Otherwise it counts an incoming denial exactly
-- when it drops the frame, and it lets the frame go on only when the early program ended by its
-- exit with the value 2.
pub fw_bpf_xdp_lem :
    (layout : Layout) (programs : Programs) (s : State) (frame : List ℕ) (size : ℕ)
    → size ≤ length frame
    → ((runs programs s size ≡ false)
        × (fw_bpf_xdp layout programs s frame size ≡ some (refused s)))
      ⊎ ((pass : Bool) × (s' : State) × (runs programs s size ≡ true)
          × (fw_bpf_xdp layout programs s frame size ≡ some (pass, s'))
          × Drops pass s s'
          × ((pass ≡ false) ⊎ Cleared layout programs s frame size))
unfolding fw_bpf_xdp count_drop
fw_bpf_xdp_lem layout programs s frame size h = elim (Bool-cases (runs programs s size)) [
  | inr stays ↦
      let test : (not (fw_bpf_ready programs) || ltb net_frame_max size || ltb fw_rules s.fw.count)
          ≡ true =
        ground arith in
      inl (stays, rw test)
  | inl goes ↦
      let test : (not (fw_bpf_ready programs) || ltb net_frame_max size || ltb fw_rules s.fw.count)
          ≡ false =
        ground arith in
      let s' : State = record s { stats = record s.stats { xdp_runs = bump s.stats.xdp_runs } } in
      let ends =
        bpf_execute-Ends programs.xdp_code (xdp_environment layout s.fw frame size)
          (xdp-IsEnvironment layout s.fw frame size h) in
      let kept = finish-counters layout s' ends.out in
      elim (Bool-cases (finish layout s' ends.out).0) [
        | inr drops ↦ inr (
          false,
          (count_drop (finish layout s' ends.out)).1,
          goes,
          rw (fw_bpf_xdp, test, ends.returns) (ground (arith, drops)),
          (rw drops kept.0, rw (drops, kept.1)),
          inl refl,
        )
        | inl passes ↦
            let closed = finish-closed layout s' ends.out passes in
            inr (
              true,
              (count_drop (finish layout s' ends.out)).1,
              goes,
              rw (fw_bpf_xdp, test, ends.returns) (ground (arith, passes)),
              (rw passes kept.0, rw passes kept.1),
              inr (record {
                run = ends.out;
                returns = ends.returns;
                exited = closed.0;
                verdict = closed.1;
              }),
            )
      ]
]
