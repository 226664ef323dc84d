-- ===== src/Bpf/Execute/Safety/Lookups.antt =====
-- jordyOS/net/bpf_vm.c: the accesses of `lookup`.
use os_research_lab.Base.{
  ℕ, zero, suc, ◌+◌, ◌-◌, ◌*◌, ◌≤◌, ◌<◌, List, Option, some, none, Bool, false, not, ◌||◌, ltb, leb,
  ◌==◌, length, get_elem?, drop, length-drop_add, bit_and, bit_xor, ◌!=◌, ◌>>>◌, ◌/◌, ◌%◌,
  get_elem?-ne-none, Option-cases, Bool-cases, ◌≡◌, inl, inr, refl, ap, arith, u32,
}
use os_research_lab.Base.Fault.{
  done, Ensures, >>=-Ensures, require-Ensures, load-Ensures, load, require, ◌>>=◌,
}
use os_research_lab.Bpf.{
  type_map_array, type_array, type_percpu_array, type_lpm, bpf_handles, BpfMap, Environment,
  bpf_maps,
}
use os_research_lab.Bpf.Memory.{
  read_le, memory, region, pointer, offset_of, map_at, is_null, bytes_of, allowed,
}
use os_research_lab.Bpf.Memory.Bounds.{IsMap, IsEnvironment, memory-fits, read_le-Ensures}
use os_research_lab.Bpf.Lookup.{
  prefix_matches, best_prefix, lpm_index, lookup_at, lookup, lookup_key, found, usable, passes_over,
}

prefix_matches-Ensures :
    (key prefix : List ℕ) (left b : ℕ)
    → 20 ≤ length key
    → 20 ≤ length prefix
    → b + left ≤ 128
    → Ensures (λ _. Unit {0}) (prefix_matches key prefix left b)
unfolding prefix_matches
prefix_matches-Ensures key prefix zero b hk hp h = tt
prefix_matches-Ensures key prefix (suc left) b hk hp h =
    load-Ensures _ (get_elem? key (4 + b / 8)) _ (get_elem?-ne-none key _ (omega arith)) λ x _.
      load-Ensures _ (get_elem? prefix (4 + b / 8)) _ (get_elem?-ne-none prefix _ (omega arith))
        λ y _. elim (Bool-cases (bit_and (bit_xor x y) (0x80 >>> (b % 8)) != 0)) [
          | inl differs ↦ rw differs tt
          | inr same ↦ rw same (prefix_matches-Ensures key prefix left (b + 1) hk hp (omega arith))
        ]

best_prefix-Ensures :
    (key keys : List ℕ) (index left i : ℕ) (best : Option ℕ) (best_bits : ℕ)
    → 20 ≤ length key
    → (i + left) * 20 ≤ length keys
    → Ensures (λ _. Unit {0}) (best_prefix key keys index left i best best_bits)
unfolding best_prefix
best_prefix-Ensures key keys index zero i best best_bits hk h = tt
best_prefix-Ensures key keys index (suc left) i best best_bits hk h =
    let there : 20 ≤ length (drop (i * 20) keys) = length-drop_add (i * 20) 20 keys (omega arith) in
    >>=-Ensures (λ _. Unit {0}) _ (read_le (drop (i * 20) keys) 4) _
      (read_le-Ensures (drop (i * 20) keys) 4 (omega arith))
      λ bits _.
        elim (Bool-cases (ltb index bits || ltb 128 bits || passes_over best best_bits bits)) [
          | inl skips ↦
              rw skips
                (best_prefix-Ensures key keys index left (i + 1) best best_bits hk (omega arith))
          | inr tries ↦ rw tries (
              >>=-Ensures (λ _. Unit {0}) _ (prefix_matches key (drop (i * 20) keys) bits 0) _
                (prefix_matches-Ensures key (drop (i * 20) keys) bits 0 hk there (ground arith))
                λ match _. elim (Bool-cases match) [
                  | inl yes' ↦ rw yes' (
                      best_prefix-Ensures key keys index left (i + 1) (some i) bits hk
                        (omega arith))
                  | inr no' ↦ rw no' (
                      best_prefix-Ensures key keys index left (i + 1) best best_bits hk
                        (omega arith))
                ])
        ]

lpm_index-Ensures :
    (m : BpfMap) (key : List ℕ) (index : ℕ)
    → IsMap m
    → m.key_size ≤ length key
    → Ensures (λ _. Unit {0}) (lpm_index m key index)
unfolding lpm_index
lpm_index-Ensures m key index valid hk =
    require-Ensures _
      (not ((m.key_size != 20) || is_null m.keys || ltb 128 index || ltb m.capacity m.entries)) _
      λ ok.
        let full : (m.key_size ≡ 20) × (is_null m.keys ≡ false) = ground arith in
        load_keys m.keys full.1 (valid.keys_fit full.1) (omega arith)
  where
    load_keys :
        (o : Option (List ℕ))
        → is_null o ≡ false
        → m.entries * 20 ≤ length (bytes_of o)
        → 20 ≤ length key
        → Ensures (λ _. Unit {0}) (load o >>= λ keys. best_prefix key keys index m.entries 0 none 0)
    load_keys none live h k = cc
    load_keys (some keys) live h k =
        best_prefix-Ensures key keys index m.entries 0 none 0 k (omega arith)

lookup_at-Ensures :
    (m : BpfMap) (id index : ℕ)
    → IsMap m
    → is_null m.values ≡ false
    → Ensures (λ _. Unit {0}) (lookup_at m id index)
unfolding lookup_at
lookup_at-Ensures m id index valid live = elim (Bool-cases (leb m.capacity index)) [
  | inl past ↦ rw past tt
  | inr inside ↦ rw inside (elim (Bool-cases (m.type == type_map_array)) [
    | inr plain ↦ rw plain tt
    | inl nested ↦ rw nested (
        require-Ensures _ (m.value_size == 4) _ λ four.
          let four' : m.value_size ≡ 4 = ground arith in
          let below : index < m.capacity = ground arith in
          read_inner m.values live
            (omega (arith, ap (λ (t : ℕ). m.capacity * t) four', valid.values_fit live)))
  ])
]
  where
    read_inner :
        (o : Option (List ℕ))
        → is_null o ≡ false
        → index * 4 + 4 ≤ length (bytes_of o)
        → Ensures
            (λ _. Unit {0})
            (load o >>= λ values. read_le (drop (index * 4) values) 4 >>= λ inner.
              require (ltb inner bpf_maps) >>= λ _. done (bpf_handles + inner))
    read_inner none live h = cc
    read_inner (some values) live h =
        >>=-Ensures (λ _. Unit {0}) _ (read_le (drop (index * 4) values) 4) _
          (read_le-Ensures (drop (index * 4) values) 4 (length-drop_add (index * 4) 4 values h))
          λ inner _. require-Ensures _ (ltb inner bpf_maps) _ λ _. tt

found-Ensures :
    (m : BpfMap) (id : ℕ) (best : Option ℕ)
    → IsMap m
    → is_null m.values ≡ false
    → Ensures (λ _. Unit {0}) (found m id best)
unfolding found
found-Ensures m id none valid live = tt
found-Ensures m id (some i) valid live = lookup_at-Ensures m id i valid live

lookup_key-Ensures :
    (m : BpfMap) (id : ℕ) (key : List ℕ)
    → IsMap m
    → is_null m.values ≡ false
    → 4 ≤ m.key_size
    → m.key_size ≤ length key
    → Ensures (λ _. Unit {0}) (lookup_key m id key)
unfolding lookup_key
lookup_key-Ensures m id key valid live wide fits =
    >>=-Ensures (λ _. Unit {0}) _ (read_le key 4) _ (read_le-Ensures key 4 (omega arith))
      λ word _. elim (Bool-cases (m.type == type_lpm)) [
        | inl lpm ↦ rw lpm (
            >>=-Ensures (λ _. Unit {0}) _ (lpm_index m key (u32 word)) _
              (lpm_index-Ensures m key (u32 word) valid fits)
              λ best _. found-Ensures m id best valid live)
        | inr other ↦ rw other (
            require-Ensures _
              ((m.type == type_array)
                || (m.type == type_percpu_array)
                || (m.type == type_map_array))
              _ λ _. lookup_at-Ensures m id (u32 word) valid live)
      ]

-- A place that `memory` allows is one at which `size` bytes are there to read.
pub allowed-Ensures :
    (e : Environment) (stack : List ℕ) (address size : ℕ) (write : Bool)
    → IsEnvironment e
    → length stack ≡ 512
    → Ensures
        (λ place.
          (memory e address size write ≡ some place)
          × (offset_of place + size ≤ length (region e stack place)))
        (allowed (memory e address size write))
allowed-Ensures e stack address size write valid full =
    elim (Option-cases (memory e address size write)) [
      | inl refused ↦ rw refused tt
      | inr (place, given) ↦
          rw given (refl, memory-fits e stack address size write place valid full given)
    ]

pub lookup-Ensures :
    (e : Environment) (stack : List ℕ) (handle key_address : ℕ)
    → IsEnvironment e
    → length stack ≡ 512
    → Ensures (λ _. Unit {0}) (lookup e stack handle key_address)
unfolding lookup
lookup-Ensures e stack handle key_address valid full =
    let id = handle - bpf_handles in
    let m = map_at e id in
    require-Ensures _ (not (ltb handle bpf_handles || leb (bpf_handles + bpf_maps) handle)) _ λ _.
      require-Ensures _ (usable m) _ λ ok.
        let sizes : (is_null m.values ≡ false) × (4 ≤ m.key_size) = ground arith in
        >>=-Ensures _ _ (allowed (memory e key_address m.key_size false)) _
          (allowed-Ensures e stack key_address m.key_size false valid full)
          λ place there.
            lookup_key-Ensures m id (pointer e stack place) (valid.each_map id) sizes.0 sizes.1
              (length-drop_add (offset_of place) m.key_size (region e stack place) there.1)
