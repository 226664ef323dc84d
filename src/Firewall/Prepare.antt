-- ===== src/Firewall/Prepare.antt =====
-- jordyOS/net/fw_bpf.c: `prepare`, the rule table as the maps of the eBPF programs. The programs are
-- compiled from the ebpfw submodule, and the layout of its structures stands there too: both are
-- parameters, `Programs` and `Layout`.
use os_research_lab.Base.{
  ℕ, zero, suc, ◌*◌, ◌/◌, ◌%◌, ◌^◌, ◌≤◌, List, [], ◌∷◌, some, none, Bool, true, false, length,
  get_or, replicate, take, min, ◌≡◌, if◌then◌else◌,
}
use os_research_lab.Bpf.{
  Insn, BpfMap, Environment, type_array, type_percpu_array, type_lpm, type_map_array,
}
use os_research_lab.Firewall.Entries.{Entry, fill}
use os_research_lab.Firewall.{FirewallRule, Firewall, fw_rules}

-- `metadata`
pub record Metadata : Type 0 where
  pub direction : ℕ
  pub proto : ℕ
  pub sport : ℕ
  pub dport : ℕ
  pub len : ℕ
  pub src : ℕ
  pub dst : ℕ

-- The fields of `struct header` that `prepare` sets.
pub record Header : Type 0 where
  pub count : ℕ
  pub ready : ℕ
  pub schema : ℕ
  pub generation : ℕ
  pub default_in : ℕ
  pub default_out : ℕ
  pub blocks : ℕ

-- The bytes of the structures of ebpfw_shared.h. A rule and the header take 96 bytes each, as the
-- source asserts, and an LPM key takes 20.
pub record Layout : Type 0 where
  pub counter_size : ℕ
  pub metadata_size : ℕ
  pub policy_bytes : Header → List Entry → List ℕ
  pub metadata_bytes : Metadata → List ℕ
  pub prefix_bytes : List (ℕ × ℕ) → List ℕ
  pub packets : List ℕ → ℕ → ℕ
  pub length-policy_bytes :
      (h : Header) (entries : List Entry)
      → length entries ≤ fw_rules
      → length (policy_bytes h entries) ≡ 33 * 96
  pub length-metadata_bytes : (m : Metadata) → length (metadata_bytes m) ≡ metadata_size
  pub length-prefix_bytes :
      (p : List (ℕ × ℕ)) → length p ≤ fw_rules → length (prefix_bytes p) ≡ 32 * 20

-- The compiled programs, `ebpfw_policy_code` and `ebpfw_xdp_code`.
pub record Programs : Type 0 where
  pub policy_code : List Insn
  pub xdp_code : List Insn

-- `FirewallBpfStats`
pub record FirewallBpfStats : Type 0 where
  pub policy_runs : ℕ
  pub xdp_runs : ℕ
  pub xdp_drops : ℕ
  pub faults : ℕ
  pub steps : ℕ

-- The static variables that a call changes for later ones.
pub record State : Type 0 where
  pub fw : Firewall
  pub stats : FirewallBpfStats

abbrev pub le32 : ℕ → List ℕ
le32 n = n % 256 ∷ n / 2 ^ 8 % 256 ∷ n / 2 ^ 16 % 256 ∷ n / 2 ^ 24 % 256 ∷ []

-- An array of `n` 32-bit words, the rest of it zero.
abbrev pub words32 : ℕ → List ℕ → List ℕ
words32 zero xs = []
words32 (suc n) [] = 0 ∷ 0 ∷ 0 ∷ 0 ∷ words32 n []
words32 (suc n) (x ∷ xs) =
    x % 256 ∷ x / 2 ^ 8 % 256 ∷ x / 2 ^ 16 % 256 ∷ x / 2 ^ 24 % 256 ∷ words32 n xs

abbrev pub rules_of : Firewall → List FirewallRule
rules_of fw = take (min fw.count fw_rules) fw.rules

abbrev pub verdict_of : Bool → ℕ
verdict_of allow = if allow then 1 else 2

abbrev pub is_on : Bool → ℕ
is_on b = if b then 1 else 0

-- `prepare`: the environment of a run, with the metadata that the caller fills in. Words of
-- `indexes` and `prefixes` behind the blocked ones, which the source leaves from an earlier call,
-- are zero here.
unfoldable pub prepare : Layout → Firewall → Metadata → Environment
unfolding fill
prepare layout fw metadata =
    let t = fill (rules_of fw) in
    let blocked = length t.indexes in
    let header : Header = record {
      count = fw.count;
      ready = 1;
      schema = 2;
      generation = 1;
      default_in = verdict_of (get_or fw.defaults 0 false);
      default_out = verdict_of (get_or fw.defaults 1 false);
      blocks = blocked;
    } in
    let policy : BpfMap = record {
      type = type_array;
      key_size = 4;
      value_size = 96;
      capacity = 33;
      entries = 0;
      values = some (layout.policy_bytes header t.entries);
      keys = none;
      writable = false;
    } in
    let active : BpfMap = record {
      type = type_map_array;
      key_size = 4;
      value_size = 4;
      capacity = 1;
      entries = 0;
      values = some (le32 0);
      keys = none;
      writable = false;
    } in
    let stats : BpfMap = record {
      type = type_percpu_array;
      key_size = 4;
      value_size = layout.counter_size;
      capacity = 48;
      entries = 0;
      values = some (replicate (48 * layout.counter_size) 0);
      keys = none;
      writable = true;
    } in
    let early4 : BpfMap = record {
      type = type_lpm;
      key_size = 20;
      value_size = 4;
      capacity = fw_rules;
      entries = blocked;
      values = some (words32 32 t.indexes);
      keys = some (layout.prefix_bytes t.blocked);
      writable = false;
    } in
    let early6 : BpfMap = record early4 { entries = 0 } in
    let enabled : BpfMap = record {
      type = type_array;
      key_size = 4;
      value_size = 4;
      capacity = 1;
      entries = 0;
      values = some (le32 (is_on fw.enabled));
      keys = none;
      writable = false;
    } in
    let meta : BpfMap = record {
      type = type_array;
      key_size = 4;
      value_size = layout.metadata_size;
      capacity = 1;
      entries = 0;
      values = some (layout.metadata_bytes metadata);
      keys = none;
      writable = false;
    } in
    record {
      context = [];
      packet = [];
      context_size = 0;
      packet_size = 0;
      maps = policy ∷ active ∷ stats ∷ early4 ∷ early6 ∷ enabled ∷ meta ∷ [];
    }
