-- ===== src/Bpf/Execute/Safety/Stores.antt =====
-- jordyOS/net/bpf_vm.c: what stores through `memory` change.
use os_research_lab.Base.{
  ℕ, List, some, true, false, ltb, ◌==◌, length, get_or-set, ◌&&◌, Bool-cases, ◌≡◌, ◌≢◌, inl, inr,
  refl, sym, ◌∙◌, arith,
}
use os_research_lab.Bpf.{BpfMap, Environment}
use os_research_lab.Bpf.Memory.{
  Place, stack_at, context_at, packet_at, value_at, memory, value_place, region, map_at, is_null,
  null_map, bytes_of, write_back,
}
use os_research_lab.Bpf.Memory.Bounds.{IsMap, IsEnvironment}

-- A map after some stores: the same map, or a writable one with other bytes in an array of the
-- same length.
pub record SameMap (m m' : BpfMap) : Type 0 where
  pub type : m'.type ≡ m.type
  pub key_size : m'.key_size ≡ m.key_size
  pub value_size : m'.value_size ≡ m.value_size
  pub capacity : m'.capacity ≡ m.capacity
  pub entries : m'.entries ≡ m.entries
  pub keys : m'.keys ≡ m.keys
  pub writable : m'.writable ≡ m.writable
  pub null : is_null m'.values ≡ is_null m.values
  pub size : length (bytes_of m'.values) ≡ length (bytes_of m.values)
  pub read_only : m.writable ≡ false → m'.values ≡ m.values

pub record Stored (e e' : Environment) : Type 0 where
  pub context : e'.context ≡ e.context
  pub packet : e'.packet ≡ e.packet
  pub context_size : e'.context_size ≡ e.context_size
  pub packet_size : e'.packet_size ≡ e.packet_size
  pub each_map : (id : ℕ) → SameMap (map_at e id) (map_at e' id)

pub SameMap-refl : (m : BpfMap) → SameMap m m
SameMap-refl m = ground arith

pub Stored-refl : (e : Environment) → Stored e e
Stored-refl e = record {
  context = refl;
  packet = refl;
  context_size = refl;
  packet_size = refl;
  each_map = λ id. SameMap-refl (map_at e id);
}

SameMap-trans : (a b c : BpfMap) → SameMap a b → SameMap b c → SameMap a c
SameMap-trans a b c p q = record {
  type = q.type ∙ p.type;
  key_size = q.key_size ∙ p.key_size;
  value_size = q.value_size ∙ p.value_size;
  capacity = q.capacity ∙ p.capacity;
  entries = q.entries ∙ p.entries;
  keys = q.keys ∙ p.keys;
  writable = q.writable ∙ p.writable;
  null = q.null ∙ p.null;
  size = q.size ∙ p.size;
  read_only = λ h. q.read_only (p.writable ∙ h) ∙ p.read_only h;
}

pub Stored-trans : (a b c : Environment) → Stored a b → Stored b c → Stored a c
Stored-trans a b c p q = record {
  context = q.context ∙ p.context;
  packet = q.packet ∙ p.packet;
  context_size = q.context_size ∙ p.context_size;
  packet_size = q.packet_size ∙ p.packet_size;
  each_map =
      λ id. SameMap-trans (map_at a id) (map_at b id) (map_at c id) (p.each_map id) (q.each_map id);
}

IsMap-SameMap : (m m' : BpfMap) → IsMap m → SameMap m m' → IsMap m'
IsMap-SameMap m m' valid same = record {
  values_fit = λ live.
      rw (same.size, same.capacity, same.value_size) (valid.values_fit (sym same.null ∙ live));
  keys_fit = rw (same.keys, same.entries) valid.keys_fit;
}

-- Stores keep an environment valid.
pub IsEnvironment-Stored : (e e' : Environment) → IsEnvironment e → Stored e e' → IsEnvironment e'
IsEnvironment-Stored e e' valid s = record {
  context_fits = rw (s.context_size, s.context) valid.context_fits;
  packet_fits = rw (s.packet_size, s.packet) valid.packet_fits;
  each_map = λ id. IsMap-SameMap (map_at e id) (map_at e' id) (valid.each_map id) (s.each_map id);
}

-- A store through `memory` goes to the stack, or into a writable map that has values.
memory-writable :
    (e : Environment) (address size id offset : ℕ)
    → memory e address size true ≡ some (value_at id offset)
    → (is_null (map_at e id).values ≡ false) × ((map_at e id).writable ≡ true)
unfolding memory value_place
memory-writable e address size id offset h = ground arith

memory-not_context :
    (e : Environment) (address size offset : ℕ)
    → (memory e address size true ≢ some (context_at offset))
      × (memory e address size true ≢ some (packet_at offset))
unfolding memory value_place
memory-not_context e address size offset = ground arith

SameMap-write :
    (m : BpfMap) (bytes : List ℕ)
    → is_null m.values ≡ false
    → m.writable ≡ true
    → length bytes ≡ length (bytes_of m.values)
    → SameMap m (record m { values = some bytes })
SameMap-write m bytes live writable size = record {
  type = refl;
  key_size = refl;
  value_size = refl;
  capacity = refl;
  entries = refl;
  keys = refl;
  writable = refl;
  null = sym live;
  size = size;
  read_only = λ h. cc;
}

map_at-write :
    (e : Environment) (stack : List ℕ) (id offset : ℕ) (bytes : List ℕ)
    → is_null (map_at e id).values ≡ false
    → (map_at e id).writable ≡ true
    → length bytes ≡ length (bytes_of (map_at e id).values)
    → (j : ℕ) → SameMap (map_at e j) (map_at (write_back e stack (value_at id offset) bytes).1 j)
unfolding write_back
map_at-write e stack id offset bytes live writable size j =
    let m = record (map_at e id) { values = some bytes } in
    rw (get_or-set e.maps id j m null_map)
      (elim (Bool-cases ((id == j) && ltb id (length e.maps))) [
        | inr other ↦ rw other (SameMap-refl (map_at e j))
        | inl here ↦
            let at : id ≡ j = ground arith in
            rw (here, ← at) (SameMap-write (map_at e id) bytes live writable size)
      ])

-- A store through a place that `memory` allows keeps the stack's size and all but the bytes of a
-- writable map.
pub write_back-Stored :
    (e : Environment) (stack : List ℕ) (address size : ℕ) (place : Place) (bytes : List ℕ)
    → memory e address size true ≡ some place
    → length bytes ≡ length (region e stack place)
    → (length (write_back e stack place bytes).0 ≡ length stack)
      × Stored e (write_back e stack place bytes).1
unfolding write_back
write_back-Stored e stack address size (stack_at offset) bytes h l = (l, Stored-refl e)
write_back-Stored e stack address size (context_at offset) bytes h l =
    absurd ((memory-not_context e address size offset).0 h)
write_back-Stored e stack address size (packet_at offset) bytes h l =
    absurd ((memory-not_context e address size offset).1 h)
write_back-Stored e stack address size (value_at id offset) bytes h l =
    let (live, writable) = memory-writable e address size id offset h in
    (
      refl,
      record {
        context = refl;
        packet = refl;
        context_size = refl;
        packet_size = refl;
        each_map = map_at-write e stack id offset bytes live writable l;
      },
    )
