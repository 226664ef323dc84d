-- ===== src/Bpf/Lookup.antt =====
-- jordyOS/net/bpf_vm.c: `lookup`, the one helper: arrays, a map of maps, and the longest prefix.
use os_research_lab.Base.{
  ℕ, zero, suc, ◌+◌, ◌-◌, ◌*◌, ◌/◌, ◌%◌, bit_and, bit_xor, List, Option, some, none, Bool, true,
  false, not, ◌&&◌, ◌||◌, ltb, leb, ◌==◌, ◌!=◌, drop, get_elem?, u32, ◌>>>◌, if◌then◌else◌,
}
use os_research_lab.Base.Fault.{Outcome, done, load, require, ◌>>=◌, ◌>>◌}
use os_research_lab.Bpf.{
  BpfMap, Environment, bpf_maps, bpf_values, bpf_handles, type_array, type_percpu_array, type_lpm,
  type_map_array,
}
use os_research_lab.Bpf.Memory.{read_le, memory, pointer, map_at, is_null, allowed}

-- The loop over the bits of a prefix, at bit `b` with `left` to compare.
unfoldable pub prefix_matches : List ℕ → List ℕ → ℕ → ℕ → Outcome Bool
prefix_matches key prefix zero b = done true
prefix_matches key prefix (suc left) b = do
  x ← load (get_elem? key (4 + b / 8))
  y ← load (get_elem? prefix (4 + b / 8))
  elim (bit_and (bit_xor x y) (0x80 >>> (b % 8)) != 0) [
    | true ↦ done false
    | false ↦ prefix_matches key prefix left (b + 1)
  ]

abbrev pub passes_over : Option ℕ → ℕ → ℕ → Bool
passes_over none best_bits bits = false
passes_over (some best) best_bits bits = leb bits best_bits

-- The loop over the entries at `i`, with `left` to go. `none` is `best == -1`.
unfoldable pub best_prefix : List ℕ → List ℕ → ℕ → ℕ → ℕ → Option ℕ → ℕ → Outcome (Option ℕ)
unfolding prefix_matches read_le
best_prefix key keys index zero i best best_bits = done best
best_prefix key keys index (suc left) i best best_bits = do
  let prefix = drop (i * 20) keys
  bits ← read_le prefix 4
  elim (ltb index bits || ltb 128 bits || passes_over best best_bits bits) [
    | true ↦ best_prefix key keys index left (i + 1) best best_bits
    | false ↦ do
      match ← prefix_matches key prefix bits 0
      elim match [
        | true ↦ best_prefix key keys index left (i + 1) (some i) bits
        | false ↦ best_prefix key keys index left (i + 1) best best_bits
      ]
  ]

-- The index that an LPM map finds for a key, if any.
unfoldable pub lpm_index : BpfMap → List ℕ → ℕ → Outcome (Option ℕ)
unfolding best_prefix
lpm_index m key index = do
  require (not ((m.key_size != 20) || is_null m.keys || ltb 128 index || ltb m.capacity m.entries))
  keys ← load m.keys
  best_prefix key keys index m.entries 0 none 0

-- What the map holds at an index: a handle of an inner map, or the address of the value.
unfoldable pub lookup_at : BpfMap → ℕ → ℕ → Outcome ℕ
lookup_at m id index =
    if leb m.capacity index
    then done 0
    else if m.type == type_map_array
    then (do
      require (m.value_size == 4)
      values ← load m.values
      inner ← read_le (drop (index * 4) values) 4
      require (ltb inner bpf_maps)
      done (bpf_handles + inner))
    else done (bpf_values + id * 0x100000 + index * 256)

-- What an LPM search found; `none` stores a null result.
unfoldable pub found : BpfMap → ℕ → Option ℕ → Outcome ℕ
unfolding lookup_at
found m id none = done 0
found m id (some i) = lookup_at m id i

-- The part of `lookup` behind the key's pointer.
unfoldable pub lookup_key : BpfMap → ℕ → List ℕ → Outcome ℕ
unfolding lpm_index lookup_at found
lookup_key m id key = do
  word ← read_le key 4
  let index = u32 word
  elim (m.type == type_lpm) [
    | true ↦ do best ← lpm_index m key index; found m id best
    | false ↦ do
      require
          ((m.type == type_array) || (m.type == type_percpu_array) || (m.type == type_map_array))
      lookup_at m id index
  ]

-- The checks on a map before its key is read.
abbrev pub usable : BpfMap → Bool
usable m = not (
    is_null m.values
    || (m.value_size == 0)
    || ltb 256 m.value_size
    || ltb 4096 m.capacity
    || (m.key_size != 4) && (m.key_size != 20))

-- `reject` is `return false`. The value is what the source stores into `*result`.
unfoldable pub lookup : Environment → List ℕ → ℕ → ℕ → Outcome ℕ
unfolding lookup_key
lookup e stack handle key_address = do
  require (not (ltb handle bpf_handles || leb (bpf_handles + bpf_maps) handle))
  let id = handle - bpf_handles
  let m = map_at e id
  require (usable m)
  place ← allowed (memory e key_address m.key_size false)
  lookup_key m id (pointer e stack place)
