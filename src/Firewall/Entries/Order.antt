-- ===== src/Firewall/Entries/Order.antt =====
-- jordyOS/net/fw_bpf.c: the order of the policy's entries.
use os_research_lab.Base.{
  ℕ, zero, suc, ◌+◌, ◌≤◌, List, [], ◌∷◌, ◌++◌, Bool, true, false, not, length, length-append, ◌≡◌,
  refl, sym, ap, ◌∙◌, arith, if◌then◌else◌,
}
use mathlib.Core.List.{append-nil, append_assoc}
use native.Mathlib.Decide.{dec_le}
use os_research_lab.Base.{◌&&◌, ◌==◌, ==_iff}
use os_research_lab.Packet.Text.{prefix_mask}
use os_research_lab.Firewall.Entries.{
  Entry, Tables, add_entry, bits, entry_of, fill, no_tables, pass_from,
}
use os_research_lab.Firewall.{FirewallRule}

-- The entries of the rules that satisfy a test, with their positions counted from `i`.
abbrev pub entries_where : (FirewallRule → Bool) → List FirewallRule → ℕ → List Entry
entries_where p [] i = []
entries_where p (r ∷ rules) i =
    if p r then entry_of r i ∷ entries_where p rules (i + 1) else entries_where p rules (i + 1)

abbrev pub positions_where : (FirewallRule → Bool) → List FirewallRule → ℕ → List ℕ
positions_where p [] i = []
positions_where p (r ∷ rules) i =
    if p r then i ∷ positions_where p rules (i + 1) else positions_where p rules (i + 1)

abbrev pub is_block : FirewallRule → Bool
is_block r = r.block

abbrev pub is_ordinary : FirewallRule → Bool
is_ordinary r = not r.block

blocks_lem :
    (rules : List FirewallRule) (i : ℕ) (t : Tables)
    → ((pass_from true rules i t).entries ≡ t.entries ++ entries_where is_block rules i)
      × ((pass_from true rules i t).indexes ≡ t.indexes ++ positions_where is_block rules i)
      × (length (pass_from true rules i t).blocked + length t.indexes
          ≡ length (pass_from true rules i t).indexes + length t.blocked)
unfolding pass_from
blocks_lem [] i t = (sym (append-nil t.entries), sym (append-nil t.indexes), omega arith)
blocks_lem (r ∷ rules) i t = ground (
  arith,
  blocks_lem rules (i + 1) (add_entry r i t),
  blocks_lem rules (i + 1) t,
  append_assoc t.entries (entry_of r i ∷ []) (entries_where is_block rules (i + 1)),
  append_assoc t.indexes (i ∷ []) (positions_where is_block rules (i + 1)),
  length-append t.indexes (i ∷ []),
  length-append t.blocked ((bits r.source_mask, r.source) ∷ []),
)

ordinary_lem :
    (rules : List FirewallRule) (i : ℕ) (t : Tables)
    → ((pass_from false rules i t).entries ≡ t.entries ++ entries_where is_ordinary rules i)
      × ((pass_from false rules i t).indexes ≡ t.indexes)
      × ((pass_from false rules i t).blocked ≡ t.blocked)
unfolding pass_from
ordinary_lem [] i t = (sym (append-nil t.entries), refl, refl)
ordinary_lem (r ∷ rules) i t = ground (
  arith,
  ordinary_lem rules (i + 1) (add_entry r i t),
  ordinary_lem rules (i + 1) t,
  append_assoc t.entries (entry_of r i ∷ []) (entries_where is_ordinary rules (i + 1)),
)

length-entries_where :
    (rules : List FirewallRule) (i : ℕ)
    → length (entries_where is_block rules i) + length (entries_where is_ordinary rules i)
      ≡ length rules
length-entries_where [] i = omega arith
length-entries_where (r ∷ rules) i = ground (arith, length-entries_where rules (i + 1))

length-positions_where :
    (rules : List FirewallRule) (i : ℕ) → length (positions_where is_block rules i) ≤ length rules
length-positions_where [] i = omega arith
length-positions_where (r ∷ rules) i = ground (arith, length-positions_where rules (i + 1))

-- The two passes of `prepare` give every rule one entry that carries its position: first those of
-- the blocks, then those of the other rules, both in table order. The early-drop table lists the
-- blocks' positions in order and has a prefix for each.
pub fill_lem :
    (rules : List FirewallRule)
    → ((fill rules).entries ≡ entries_where is_block rules 0 ++ entries_where is_ordinary rules 0)
      × (length (fill rules).entries ≡ length rules)
      × ((fill rules).indexes ≡ positions_where is_block rules 0)
      × (length (fill rules).blocked ≡ length (fill rules).indexes)
      × (length (fill rules).indexes ≤ length rules)
unfolding fill
fill_lem rules =
    let t = pass_from true rules 0 no_tables in
    let first = blocks_lem rules 0 no_tables in
    let second = ordinary_lem rules 0 t in
    let entries : (pass_from false rules 0 t).entries
        ≡ entries_where is_block rules 0 ++ entries_where is_ordinary rules 0 =
      second.0 ∙ ap (λ (es : List Entry). es ++ entries_where is_ordinary rules 0) first.0 in
    let indexes : (pass_from false rules 0 t).indexes ≡ positions_where is_block rules 0 =
      second.1 ∙ first.1 in
    (
      entries,
      ap length entries
          ∙ length-append (entries_where is_block rules 0) _
          ∙ length-entries_where rules 0,
      indexes,
      ap length second.2 ∙ omega (arith, first.2) ∙ ap length (sym second.1),
      rw indexes (length-positions_where rules 0),
    )

-- The claim at all lengths up to one, by evaluation.
agree : ℕ → Bool
agree zero = bits (prefix_mask 0) == 0
agree (suc length) = agree length && (bits (prefix_mask (suc length)) == suc length)

agree_up_to :
    (top length : ℕ) → length ≤ top → agree top ≡ true → bits (prefix_mask length) ≡ length
unfolding agree
agree_up_to zero zero h e = (==_iff _ 0).0 e
agree_up_to zero (suc length) h e = absurd (omega arith)
agree_up_to (suc top) length h e = elim (dec_le length top) [
  | yes low ↦ agree_up_to top length low (ground arith)
  | no high ↦
      let same : length ≡ suc top = omega arith in rw same ((==_iff _ (suc top)).0 (ground arith))
]

agree_all : agree 32 ≡ true
unfolding agree bits prefix_mask
agree_all = refl

-- The length that the policy gets for a mask is the prefix length from which the shell's CIDR
-- parser made the mask.
pub bits-prefix_mask : (n : ℕ) → n ≤ 32 → bits (prefix_mask n) ≡ n
bits-prefix_mask n h = agree_up_to 32 n h agree_all
