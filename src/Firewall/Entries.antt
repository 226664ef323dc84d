-- ===== src/Firewall/Entries.antt =====
-- jordyOS/net/fw_bpf.c: the loops of `prepare` that turn the rules into entries of the policy, and
-- `bits`, which counts a mask.
pub mod Order
use os_research_lab.Base.{
  ℕ, zero, suc, ◌+◌, ◌-◌, List, [], ◌∷◌, ◌++◌, Bool, true, false, not, ◌&&◌, ◌==◌, u32, ◌<<<◌,
  if◌then◌else◌,
}
use mathlib.Core.Option
use os_research_lab.Firewall.{FirewallRule}

-- `bits`: the loop with fuel; a 32-bit mask is shifted out in 32 rounds.
unfoldable pub bits_from : ℕ → ℕ → ℕ → ℕ
bits_from zero mask n = n
bits_from (suc fuel) mask n =
    let rest = bits_from fuel (u32 (mask <<< 1)) (n + 1) in if mask == 0 then n else rest

unfoldable pub bits : ℕ → ℕ
unfolding bits_from
bits mask = bits_from 33 mask 0

-- The fields of `struct rule` that `prepare` sets.
pub record Entry : Type 0 where
  pub action : ℕ
  pub direction : ℕ
  pub family : ℕ
  pub proto : ℕ
  pub src_bits : ℕ
  pub dst_bits : ℕ
  pub src : ℕ
  pub dst : ℕ
  pub dport : ℕ
  pub index : ℕ

-- What the loops of `prepare` fill: `policy[1..]`, and `prefixes` beside `indexes`.
pub record Tables : Type 0 where
  pub entries : List Entry
  pub blocked : List (ℕ × ℕ)
  pub indexes : List ℕ

unfoldable pub entry_of : FirewallRule → ℕ → Entry
unfolding bits
entry_of native i = record {
  action = if native.block then 5 else if native.allow then 1 else 2;
  direction = if native.block then 0 else native.direction + 1;
  family = 4;
  proto = native.protocol;
  src_bits = bits native.source_mask;
  dst_bits = bits native.destination_mask;
  src = native.source;
  dst = native.destination;
  dport = native.port;
  index = i;
}

-- The body of the inner loop, for the rule `i`.
unfoldable pub add_entry : FirewallRule → ℕ → Tables → Tables
unfolding entry_of
add_entry native i t =
    let r = entry_of native i in
    record {
      entries = t.entries ++ r ∷ [];
      blocked = if native.block then t.blocked ++ (r.src_bits, r.src) ∷ [] else t.blocked;
      indexes = if native.block then t.indexes ++ i ∷ [] else t.indexes;
    }

-- One pass over the rules from `i` on, the list being those that are left: the first pass takes
-- the blocks, the second the others.
unfoldable pub pass_from : Bool → List FirewallRule → ℕ → Tables → Tables
unfolding add_entry
pass_from blocks [] i t = t
pass_from blocks (native ∷ rules) i t =
    pass_from blocks rules (i + 1)
      (if (if blocks then native.block else not native.block) then add_entry native i t else t)

abbrev pub no_tables : Tables
no_tables = record { entries = []; blocked = []; indexes = [] }

-- The two loops over `i < count && i < FW_RULES`.
unfoldable pub fill : List FirewallRule → Tables
unfolding pass_from
fill rules = pass_from false rules 0 (pass_from true rules 0 no_tables)
