-- ===== src/Tcp/Options.antt =====
-- jordyOS/net/tcp.c: the loop over the options of a SYN/ACK.
use os_research_lab.Base.{
  ℕ, zero, suc, ◌+◌, ◌≤◌, ◌<◌, List, Option, some, none, leb, length, Bool-cases, inl, inr, arith,
}
use os_research_lab.Base.Fault.{Outcome, Ensures, >>=-Ensures}
use os_research_lab.Packet.Sum.{IsBytes}
use os_research_lab.Packet.Decode.{byte_lem, read16_lem}
use os_research_lab.Tcp.Input.{next_option, syn_options}

-- What a round gives: the end, or a later index.
abbrev Advances : ℕ → Option (ℕ × ℕ) → Type 0
Advances i none = Unit {0}
Advances i (some p) = i < p.0

-- A round of the option loop reads inside the header.
next_option-reads :
    (b : List ℕ) (header i mss : ℕ)
    → IsBytes b
    → header ≤ length b
    → Ensures (Advances i) (next_option b header i mss)
unfolding next_option
next_option-reads b header i mss bytes inside = elim (Bool-cases (leb header i)) [
  | inl over ↦ rw over tt
  | inr more ↦
      rw (more, byte_lem b i (ground arith))
        (ground (arith, byte_lem b (i + 1), read16_lem b (i + 2) bytes))
]

pub syn_options-reads :
    (left : ℕ) (b : List ℕ) (header i mss : ℕ)
    → IsBytes b
    → header ≤ length b
    → Ensures (λ (m : ℕ). Unit {0}) (syn_options left b header i mss)
unfolding syn_options
syn_options-reads zero b header i mss bytes inside = tt
syn_options-reads (suc left) b header i mss bytes inside =
    >>=-Ensures (Advances i) (λ (m : ℕ). Unit {0}) (next_option b header i mss) _
      (next_option-reads b header i mss bytes inside)
      (λ next q.
        elim next
          as (λ k.
            Ensures (λ (m : ℕ). Unit {0})
              (elim k [
                | none ↦ Outcome.done mss
                | some (i', mss') ↦ syn_options left b header i' mss'
              ])) [ none ↦ tt | some p ↦ syn_options-reads left b header p.0 p.1 bytes inside ])
