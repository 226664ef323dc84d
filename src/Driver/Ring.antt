-- ===== src/Driver/Ring.antt =====
-- jordyOS/net/rtl8139.c: the laws of the receive loop.
use os_research_lab.Base.{
  ℕ, zero, suc, ◌+◌, ◌%◌, ◌≤◌, List, [], ◌∷◌, ◌++◌, true, ltb, length, set, take, get_or,
  length-set, get_elem?-of_lt, ◌≡◌, refl, sym, ap, ◌∙◌, arith,
}
use mathlib.Core.List.{append-nil, append_assoc}
use os_research_lab.Base.Fault.{done, Returns, Returns-map}
use os_research_lab.Packet.{net_frame_max}
use os_research_lab.Text.Line.{take-set}
use os_research_lab.Driver.{Event, out, received, tcp_polled, tcp_stopped, rx_size}
use os_research_lab.Driver.Poll.{Look, ring_byte, copy_frame}

-- `n` bytes of the ring from `start` on, going round.
pub slice : List ℕ → ℕ → ℕ → List ℕ
slice ring start zero = []
slice ring start (suc n) = get_or ring (start % rx_size) 0 ∷ slice ring (start + 1) n

pub ring_byte_lem :
    (ring : List ℕ) (i : ℕ)
    → length ring ≡ rx_size
    → ring_byte ring i ≡ done (get_or ring (i % rx_size) 0)
ring_byte_lem ring i size =
    let there = get_elem?-of_lt ring (i % rx_size) 0 (omega (arith, size)) in rw there refl

-- The frame buffer after a copy.
abbrev pub Copied : List ℕ → ℕ → List ℕ → ℕ → ℕ → List ℕ → Type 0
Copied ring offset frame i left after =
    (length after ≡ length frame)
    × (take (i + left) after ≡ take i frame ++ slice ring (offset + 4 + i) left)

pub copy_frame_lem :
    (ring : List ℕ) (offset : ℕ) (frame : List ℕ) (i left : ℕ)
    → length ring ≡ rx_size
    → i + left ≤ length frame
    → Returns (Copied ring offset frame i left) (copy_frame ring offset frame i left)
unfolding copy_frame slice
copy_frame_lem ring offset frame i zero size h =
    let e : i + 0 ≡ i = omega arith in rw e (refl, sym (append-nil (take i frame)))
copy_frame_lem ring offset frame i (suc left) size h =
    let there = ring_byte_lem ring (offset + 4 + i) size in
    let inside : ltb i (length frame) ≡ true = ground arith in
    let byte = get_or ring ((offset + 4 + i) % rx_size) 0 in
    let next = set frame i byte in
    let same = length-set frame i byte in
    let n : i + suc left ≡ i + 1 + left = omega arith in
    let m : offset + 4 + i + 1 ≡ offset + 4 + (i + 1) = omega arith in
    let first : take (i + 1) next ≡ take i frame ++ byte ∷ [] =
      take-set frame i byte (omega arith) in
    rw there (
      rw inside (
        Returns-map (Copied ring offset next (i + 1) left) (Copied ring offset frame i (suc left))
          (copy_frame ring offset next (i + 1) left)
          (copy_frame_lem ring offset next (i + 1) left size (omega (arith, same)))
          λ after copied. (
            copied.0 ∙ same,
            ap (λ k. take k after) n
                ∙ copied.1
                ∙ ap (λ l. l ++ slice ring (offset + 4 + (i + 1)) left) first
                ∙ append_assoc (take i frame) (byte ∷ []) (slice ring (offset + 4 + (i + 1)) left)
                ∙ ap (λ k. take i frame ++ byte ∷ slice ring k left) (sym m),
          )))

-- The frames that were handed on are as long as the network takes, and stood in the ring at a look.
abbrev pub Delivered : (ℕ → Look) → Event → Type 0
Delivered look (received frame n) =
    (k : ℕ) × (start : ℕ) × (n ≤ net_frame_max) × (take n frame ≡ slice (look k).ring start n)
Delivered look (out port value) = Unit {0}
Delivered look tcp_polled = Unit {0}
Delivered look tcp_stopped = Unit {0}

abbrev pub AllDelivered : (ℕ → Look) → List Event → Type 0
AllDelivered look [] = Unit {0}
AllDelivered look (e ∷ events) = Delivered look e × AllDelivered look events

-- The number of frames that were handed on.
abbrev pub frames : List Event → ℕ
frames [] = 0
frames (received frame n ∷ events) = suc (frames events)
frames (out port value ∷ events) = frames events
frames (tcp_polled ∷ events) = frames events
frames (tcp_stopped ∷ events) = frames events

pub AllDelivered-append :
    (look : ℕ → Look) (xs ys : List Event)
    → AllDelivered look xs
    → AllDelivered look ys
    → AllDelivered look (xs ++ ys)
AllDelivered-append look [] ys h k = k
AllDelivered-append look (x ∷ xs) ys h k = (h.0, AllDelivered-append look xs ys h.1 k)

pub frames-append : (xs ys : List Event) → frames (xs ++ ys) ≡ frames xs + frames ys
frames-append [] ys = omega arith
frames-append (received frame n ∷ xs) ys = omega (arith, frames-append xs ys)
frames-append (out port value ∷ xs) ys = frames-append xs ys
frames-append (tcp_polled ∷ xs) ys = frames-append xs ys
frames-append (tcp_stopped ∷ xs) ys = frames-append xs ys
