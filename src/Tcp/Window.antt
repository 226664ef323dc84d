-- ===== src/Tcp/Window.antt =====
-- jordyOS/net/tcp.c: what may be sent anew, and what an attempt to send it leaves.
use os_research_lab.Base.{
  ℕ, zero, suc, ◌+◌, ◌-◌, ◌≤◌, ◌<◌, List, [], ◌∷◌, get_or, take, drop, Bool, false, ◌||◌, ◌!=◌,
  Bool-cases, ◌≡◌, ◌⊎◌, inl, inr, refl, ap, ◌∙◌, arith, u32, bit_or, if◌then◌else◌,
}
use os_research_lab.Tcp.{
  Tcp, TcpSegment, Ports, tcp_ack, tcp_psh, tcp_fin, sub32, has, one_if, inflight, output,
}
use os_research_lab.Tcp.Send.{transmit}
use os_research_lab.Tcp.Tick.{commit}
use os_research_lab.Tcp.Frame.{Core, core-transmit}

-- What the attempt to hand on `n` bytes of the file from the next one on, with the end of the stream
-- or without, leaves: the callback got that segment, and if it was sent the next number, the place
-- in the file and the end of the stream are advanced over it.
pub record Advances {M W : Type 0} (ports : Ports M W) (c : Tcp M W) (seq place flags n : ℕ)
    (c' : Tcp M W) : Type 0 where
  pub handed : c'.context ≡ (output ports c seq flags (take n (drop place c.tx))).1.context
  pub next : c'.next ≡ (
      if (output ports c seq flags (take n (drop place c.tx))).0
      then u32 (c.next + n + one_if (has flags tcp_fin))
      else c.next)
  pub offset : c'.tx_offset ≡ (
      if (output ports c seq flags (take n (drop place c.tx))).0
      then u32 (c.tx_offset + n)
      else c.tx_offset)
  pub ends : c'.own_fin ≡ (
      if (output ports c seq flags (take n (drop place c.tx))).0
      then c.own_fin || has flags tcp_fin
      else c.own_fin)

-- Nothing of the stream is counted as sent.
abbrev pub Stays : {M W : Type 0} → Tcp M W → Tcp M W → Type 0
Stays c c' = (c'.next ≡ c.next) × (c'.tx_offset ≡ c.tx_offset) × (c'.own_fin ≡ c.own_fin)

-- The last byte sent, or 0.
abbrev pub last_byte : {M W : Type 0} → Tcp M W → ℕ
last_byte c = if c.tx_offset != 0 then get_or c.tx (c.tx_offset - 1) 0 else 0

-- What may be sent anew now: data of at most the segment size that is left in the file, or the end of
-- the stream behind it when all is acknowledged; within the peer's window, the congestion window
-- and the pace.
pub record MaySend {M W : Type 0} (c : Tcp M W) (now flags n : ℕ) : Type 0 where
  pub still_open : c.own_fin ≡ false
  pub pace : c.next_send_us ≤ now
  pub congestion : inflight c < c.cwnd
  pub segment_size : n ≤ c.mss
  pub left : n ≤ sub32 c.tx_size c.tx_offset
  pub window : sub32 c.next c.una + n + one_if (has flags tcp_fin) ≤ c.peer_window
  pub kind :
      ((flags ≡ bit_or tcp_ack tcp_psh) × (0 < n))
      ⊎ ((flags ≡ bit_or tcp_ack tcp_fin) × (n ≡ 0) × (c.tx_offset ≡ c.tx_size) × (inflight c ≡ 0))

abbrev pub SendsNew : {M W : Type 0} → Ports M W → Tcp M W → ℕ → Tcp M W → Type 0
SendsNew ports c now c' =
    (flags : ℕ) × (n : ℕ) × MaySend c now flags n × Advances ports c c.next c.tx_offset flags n c'

abbrev pub Silent : {M W : Type 0} → Tcp M W → Tcp M W → Type 0
Silent c c' = (c'.context ≡ c.context) × Stays c c'

abbrev pub Probes : {M W : Type 0} → Ports M W → Tcp M W → Tcp M W → Type 0
Probes ports c c' =
    (c.peer_window ≡ 0)
    × (c'.context ≡ (output ports c (sub32 c.next 1) tcp_ack (last_byte c ∷ [])).1.context)
    × Stays c c'

abbrev pub Sends : {M W : Type 0} → Ports M W → Tcp M W → ℕ → Tcp M W → Type 0
Sends ports c now c' = (Silent c c' ⊎ Probes ports c c') ⊎ SendsNew ports c now c'

module _ {M W : Type 0} (ports : Ports M W) where
  taken : (n : ℕ) (xs : List ℕ) → (if n != 0 then take n xs else []) ≡ take n xs
  taken zero xs = refl
  taken (suc n) xs = ground arith

  transmit_lem :
      (c : Tcp M W) (s : TcpSegment) (now : ℕ)
      → ((transmit ports c s now).ok
          ≡ (output ports c s.sequence s.flags (take s.length (drop s.offset c.tx))).0)
        × ((transmit ports c s now).conn.context
            ≡ (output ports c s.sequence s.flags (take s.length (drop s.offset c.tx))).1.context)
  unfolding transmit
  transmit_lem c s now =
      rw (taken s.length (drop s.offset c.tx))
        (elim (Bool-cases
          (output ports c s.sequence s.flags (take s.length (drop s.offset c.tx))).0) [
            | inr fails ↦ rw fails (refl, refl)
            | inl sent ↦ rw sent (
              refl,
              elim (Bool-cases (s.length != 0)) [
                | inl some_data ↦ rw some_data refl
                | inr no_data ↦ rw no_data refl
              ],
            )
          ])

  pub commit-Advances :
      (c : Tcp M W) (s : TcpSegment) (slot : ℕ) (outstanding : Bool) (now : ℕ)
      → Advances ports c s.sequence s.offset s.flags s.length
          (commit ports c s slot outstanding now)
  unfolding commit
  commit-Advances c s slot outstanding now =
      let same = core-transmit ports c s now in
      let (ok, handed) = transmit_lem c s now in
      let next = ap (λ (k : Core). k.flow.next) same in
      let offset = ap (λ (k : Core). k.body.tx_offset) same in
      let ends = ap (λ (k : Core). k.flow.own_fin) same in
      elim (Bool-cases (output ports c s.sequence s.flags (take s.length (drop s.offset c.tx))).0) [
        | inr fails ↦
            let stays = ok ∙ fails in
            record {
              handed = rw stays handed;
              next = rw (stays, fails) next;
              offset = rw (stays, fails) offset;
              ends = rw (stays, fails) ends;
            }
        | inl sent ↦
            let goes = ok ∙ sent in
            record {
              handed = rw goes handed;
              next =
                  rw (goes, sent)
                    (ap (λ n. u32 (n + s.length + one_if (has s.flags tcp_fin))) next);
              offset = rw (goes, sent) (ap (λ n. u32 (n + s.length)) offset);
              ends = rw (goes, sent) (ap (λ e. e || has s.flags tcp_fin) ends);
            }
      ]
