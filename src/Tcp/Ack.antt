-- ===== src/Tcp/Ack.antt =====
-- jordyOS/net/tcp.c: `ack`, which retires acknowledged segments and feeds the controller.
use os_research_lab.Base.{
  ℕ, ◌+◌, ◌*◌, ◌/◌, bit_or, List, [], ◌∷◌, Option, some, none, Bool, true, false, not, ◌&&◌, ◌||◌,
  leb, ◌==◌, ◌!=◌, u32, if◌then◌else◌,
}
use os_research_lab.Tcp.{
  Tcp, TcpSegment, Feedback, larp_open, larp_recovery, Ports, tcp_fin, tcp_syn, sub32, sub64,
  before, has, one_if, inflight, oldest,
}
use os_research_lab.Tcp.Send.{feedback, rtt_sample, loss}

-- The variables of the loop over the slots.
pub record Acked : Type 0 where
  pub packets : ℕ
  pub bytes : ℕ
  pub retransmitted : Bool
  pub sample : Option TcpSegment
  pub fin_acked : Bool

abbrev pub later_sample : Option TcpSegment → TcpSegment → Bool
later_sample none s = true
later_sample (some t) s = before t.sequence s.sequence

-- The body of the loop for the slot `s`.
unfoldable pub ack_slot : ℕ → TcpSegment → Acked → TcpSegment × Acked
unfolding before
ack_slot a s acc =
    if not s.used || not (before s.sequence a)
    then (s, acc)
    else (let consumed = sub32 a s.sequence in
        let size = s.length + one_if (has s.flags (bit_or tcp_syn tcp_fin)) in
        let acc : Acked = record acc {
          retransmitted = acc.retransmitted || s.retries != 0;
          sample = if (s.retries == 0) && later_sample acc.sample s then some s else acc.sample;
        } in
        if leb size consumed
        then (
          record s { used = false },
          record acc {
            bytes = u32 (acc.bytes + s.length);
            packets = acc.packets + 1;
            fin_acked = acc.fin_acked || has s.flags tcp_fin;
          },
        )
        else (
          record s {
            sequence = u32 (s.sequence + consumed);
            offset = u32 (s.offset + consumed);
            length = sub32 s.length consumed;
          },
          record acc { bytes = u32 (acc.bytes + consumed) },
        ))

abbrev pub consed : TcpSegment → List TcpSegment × Acked → List TcpSegment × Acked
consed s (slots, acc) = (s ∷ slots, acc)

unfoldable pub ack_slots : ℕ → List TcpSegment → Acked → List TcpSegment × Acked
unfolding ack_slot
ack_slots a [] acc = ([], acc)
ack_slots a (s ∷ slots) acc =
    let first = ack_slot a s acc in consed first.0 (ack_slots a slots first.1)

abbrev pub nothing_acked : Acked
nothing_acked = record {
  packets = 0;
  bytes = 0;
  retransmitted = false;
  sample = none;
  fin_acked = false;
}

abbrev pub rtt_of : Option TcpSegment → Bool → (TcpSegment → ℕ) → Option ℕ
rtt_of none retransmitted f = none
rtt_of (some s) retransmitted f = if retransmitted then none else some (f s)

-- `rtt_sample` where there is a sample of segments sent once.
abbrev pub sampled : {M W : Type 0} → Ports M W → Tcp M W → Option ℕ → Tcp M W
sampled ports c none = c
sampled ports c (some rtt) = rtt_sample ports c rtt

-- The interval over which the sample was delivered, and the bytes delivered in it.
abbrev pub interval_of : {M W : Type 0} → Ports M W → Option TcpSegment → ℕ → ℕ
interval_of ports none now = 0
interval_of ports (some s) now =
    ports.larp.larp_max (sub64 now s.delivered_us) (sub64 s.sent_us s.flight_us)

abbrev pub delivered_of : {M W : Type 0} → Tcp M W → Option TcpSegment → ℕ
delivered_of c none = 0
delivered_of c (some s) = sub32 c.delivered s.delivered

abbrev pub is_limited : Option TcpSegment → Bool
is_limited none = true
is_limited (some s) = s.app_limited

abbrev pub sample_start : Option TcpSegment → ℕ
sample_start none = 0
sample_start (some s) = s.delivered_us

abbrev pub or_zero : Option ℕ → ℕ
or_zero none = 0
or_zero (some n) = n

-- The feedback of an acknowledgement.
unfoldable pub ack_feedback : {M W : Type 0} → Ports M W → Tcp M W → Acked → Option ℕ → ℕ → Feedback
unfolding inflight
ack_feedback ports c acc rtt now =
    let interval = interval_of ports acc.sample now in
    let delivered = delivered_of c acc.sample in
    record {
      now_us = now;
      rtt_us = or_zero rtt;
      loss = false;
      in_recovery = c.recovery;
      inflight = inflight c;
      app_limited = is_limited acc.sample;
      window_limited = not (is_limited acc.sample);
      valid_delivery =
          not acc.retransmitted
          && leb (4 * c.mss) delivered
          && leb (ports.larp.larp_max (ports.larp.min_rtt_us c.larp / 8) 1) interval;
      delivery_rate =
          if interval == 0 then 0 else ports.larp.larp_div (delivered * 1000000) interval;
      sample_start_us = sample_start acc.sample;
    }

-- The acknowledgement of new bytes, the slots walked.
unfoldable pub advance :
    {M W : Type 0} → Ports M W → Tcp M W → ℕ → ℕ → List TcpSegment × Acked → Tcp M W
unfolding ack_feedback
advance ports c a now (slots, acc) =
    let c = record c {
      pending = slots;
      own_fin_acked = c.own_fin_acked || acc.fin_acked;
      una = a;
      dupacks = 0;
      timer_us = now;
      delivered = u32 (c.delivered + acc.bytes);
    } in
    let rtt =
      rtt_of acc.sample acc.retransmitted
        (λ (s : TcpSegment). u32 (ports.larp.larp_min (sub64 now s.sent_us) 60000000)) in
    let c = sampled ports c rtt in
    let c =
      feedback ports c (ack_feedback ports c acc rtt now) acc.packets
        (if c.recovery then larp_recovery else larp_open) in
    record c { delivered_us = now; recovery = c.recovery && before a c.recovery_end }

-- `++c->dupacks == 3 && !c->recovery`
abbrev pub duplicate : {M W : Type 0} → Ports M W → Tcp M W → ℕ → Tcp M W
duplicate ports c now =
    let c = record c { dupacks = u32 (c.dupacks + 1) } in
    if (c.dupacks == 3) && not c.recovery then loss ports c now false else c

abbrev pub is_some : Option (ℕ × TcpSegment) → Bool
is_some none = false
is_some (some s) = true

unfoldable pub ack : {M W : Type 0} → Ports M W → Tcp M W → ℕ → ℕ → Tcp M W
unfolding before ack_slots advance
ack ports c a now =
    if before a c.una || before c.next a
    then record c { invalid_acks = u32 (c.invalid_acks + 1) }
    else if a == c.una
    then (if is_some (oldest c) then duplicate ports c now else c)
    else advance ports c a now (ack_slots a c.pending nothing_acked)
