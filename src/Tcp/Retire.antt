-- ===== src/Tcp/Retire.antt =====
-- jordyOS/net/tcp.c: the invariant of the connection under `ack`.
use os_research_lab.Base.{
  ℕ, suc, ◌+◌, ◌≤◌, List, [], ◌∷◌, Option, some, none, Bool, false, not, ◌&&◌, ◌||◌, leb, ◌==◌,
  length, Bool-cases, ◌≡◌, inl, inr, refl, ap, ◌∙◌, arith, u32,
}
use os_research_lab.Tcp.{
  Tcp, TcpSegment, Ports, tcp_buffer, tcp_slots, before, sub32, has, one_if, oldest,
}
use os_research_lab.Tcp.Send.{rtt_sample, feedback}
use os_research_lab.Tcp.Ack.{
  Acked, ack_slot, ack_slots, nothing_acked, sampled, advance, duplicate, ack, is_some,
}
use os_research_lab.Tcp.Frame.{Core, body, core-rtt_sample, rtt_sample_range}
use os_research_lab.Tcp.Invariant.{
  IsSegment, EachSegment, IsTcp, IsBody-rto, IsBody-pending, IsBody-fin_acked,
}
use os_research_lab.Tcp.Resend.{loss-IsTcp}

-- Bytes from the front of a part of the file.
part_lem :
    (n offset size k : ℕ) (b : Bool)
    → n ≤ 16384
    → offset + size ≤ n
    → leb (size + one_if b) k ≡ false
    → u32 (offset + k) + sub32 size k ≤ n
part_lem n offset size k b small inside part = ground arith

-- A segment acknowledged in part has its bytes in the file still.
ack_slot-IsSegment :
    (a n : ℕ) (s : TcpSegment) (acc : Acked)
    → n ≤ tcp_buffer
    → IsSegment n s
    → IsSegment n (ack_slot a s acc).0
unfolding ack_slot
ack_slot-IsSegment a n s acc small p = elim (Bool-cases (not s.used || not (before s.sequence a))) [
  | inl kept ↦ rw kept p
  | inr taken ↦
      rw taken (elim (Bool-cases (leb (s.length + one_if (has s.flags 3)) (sub32 a s.sequence))) [
        | inl whole ↦ rw whole p
        | inr part ↦
            rw part (
              p.0,
              part_lem n s.offset s.length (sub32 a s.sequence) (has s.flags 3) small p.1 part,
            )
      ])
]

ack_slots_lem :
    (a n : ℕ) (slots : List TcpSegment) (acc : Acked)
    → n ≤ tcp_buffer
    → EachSegment n slots
    → EachSegment n (ack_slots a slots acc).0 × (length (ack_slots a slots acc).0 ≡ length slots)
unfolding ack_slots
ack_slots_lem a n [] acc small each = (tt, refl)
ack_slots_lem a n (s ∷ slots) acc small each =
    let rest = ack_slots_lem a n slots (ack_slot a s acc).1 small each.1 in
    ((ack_slot-IsSegment a n s acc small each.0, rest.0), ap suc rest.1)

module _ {M W : Type 0} (ports : Ports M W) (file : List ℕ) where
  pub rtt_sample-IsTcp :
      (c : Tcp M W) (rtt : ℕ) → IsTcp file c → IsTcp file (rtt_sample ports c rtt)
  rtt_sample-IsTcp c rtt h =
      rw (ap Core.body (core-rtt_sample ports c rtt))
        (IsBody-rto file (body c) (rtt_sample ports c rtt).rto_us (rtt_sample_range ports c rtt) h)

  sampled-IsTcp : (c : Tcp M W) (rtt : Option ℕ) → IsTcp file c → IsTcp file (sampled ports c rtt)
  sampled-IsTcp c none h = h
  sampled-IsTcp c (some rtt) h = rtt_sample-IsTcp c rtt h

  advance-IsTcp :
      (c : Tcp M W) (a now : ℕ) (walked : List TcpSegment × Acked)
      → EachSegment c.tx_size walked.0
      → length walked.0 ≡ tcp_slots
      → IsTcp file c
      → IsTcp file (advance ports c a now walked)
  unfolding advance feedback
  advance-IsTcp c a now (slots, acc) each e h =
      sampled-IsTcp _ _
        (IsBody-fin_acked file _ acc.fin_acked (IsBody-pending file (body c) slots e each h))

  duplicate-IsTcp : (c : Tcp M W) (now : ℕ) → IsTcp file c → IsTcp file (duplicate ports c now)
  duplicate-IsTcp c now h = elim (Bool-cases ((u32 (c.dupacks + 1) == 3) && not c.recovery)) [
    | inl third ↦ rw third (loss-IsTcp ports file _ now false h)
    | inr other ↦ rw other h
  ]

  pub ack-IsTcp : (c : Tcp M W) (a now : ℕ) → IsTcp file c → IsTcp file (ack ports c a now)
  unfolding ack
  ack-IsTcp c a now h = elim (Bool-cases (before a c.una || before c.next a)) [
    | inl invalid ↦ rw invalid h
    | inr valid ↦ rw valid (elim (Bool-cases (a == c.una)) [
      | inr new ↦ rw new (
          let walked = ack_slots_lem a c.tx_size c.pending nothing_acked h.size h.segments in
          advance-IsTcp c a now (ack_slots a c.pending nothing_acked) walked.0 (walked.1 ∙ h.slots)
            h)
      | inl old ↦ rw old (elim (Bool-cases (is_some (oldest c))) [
        | inl waiting ↦ rw waiting (duplicate-IsTcp c now h)
        | inr nothing ↦ rw nothing h
      ])
    ])
  ]
