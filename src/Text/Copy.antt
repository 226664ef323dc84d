-- ===== src/Text/Copy.antt =====
-- jordyOS/kernel.c: `strlen`, `strcpy`, `strncpy`, `memset` and `memcpy` on strings that lie in their
-- arrays.
use os_research_lab.Base.{
  ℕ, zero, suc, ◌+◌, ◌≤◌, ◌<◌, List, [], ◌∷◌, ◌++◌, false, ◌==◌, length, take, drop, replicate, ◌≡◌,
  ◌≢◌, refl, ap, ◌∙◌, arith, u8,
}
use os_research_lab.Base.Fault.{done}
use os_research_lab.Text.{strlen, strcpy, strncpy, memset, memcpy}

-- Text with no zero byte in it.
abbrev pub IsText : List ℕ → Type 0
IsText [] = Unit {0}
IsText (c ∷ s) = (c ≢ 0) × IsText s

pub strlen_lem : (s rest : List ℕ) → IsText s → strlen (s ++ 0 ∷ rest) ≡ done (length s)
unfolding strlen
strlen_lem [] rest h = refl
strlen_lem (c ∷ s) rest h =
    let e : c == 0 ≡ false = ground (arith, h.0) in rw (e, strlen_lem s rest h.1) refl

pub strcpy_lem :
    (dst s rest : List ℕ)
    → IsText s
    → length s < length dst
    → strcpy dst (s ++ 0 ∷ rest) ≡ done (s ++ 0 ∷ drop (length s + 1) dst)
unfolding strcpy
strcpy_lem [] s rest h room = absurd (omega arith)
strcpy_lem (d ∷ dst) [] rest h room = refl
strcpy_lem (d ∷ dst) (c ∷ s) rest h room =
    let e : c == 0 ≡ false = ground (arith, h.0) in
    let n : suc (length s) + 1 ≡ suc (length s + 1) = omega arith in
    rw (e, n, strcpy_lem dst s rest h.1 (omega arith)) refl

memset_lem :
    (dst : List ℕ) (c n : ℕ)
    → n ≤ length dst
    → memset dst c n ≡ done (replicate n (u8 c) ++ drop n dst)
unfolding memset
memset_lem dst c zero room = refl
memset_lem [] c (suc n) room = absurd (omega arith)
memset_lem (d ∷ dst) c (suc n) room = rw (memset_lem dst c n (omega arith)) refl

pub memcpy_lem :
    (dst s : List ℕ) (n : ℕ)
    → n ≤ length s
    → n ≤ length dst
    → memcpy dst s n ≡ done (take n s ++ drop n dst)
unfolding memcpy
memcpy_lem dst s zero h room = refl
memcpy_lem dst [] (suc n) h room = absurd (omega arith)
memcpy_lem [] (c ∷ s) (suc n) h room = absurd (omega arith)
memcpy_lem (d ∷ dst) (c ∷ s) (suc n) h room =
    rw (memcpy_lem dst s n (omega arith) (omega arith)) refl

-- The first `n` bytes of a text followed by zero bytes for ever.
abbrev pub padded : ℕ → List ℕ → List ℕ
padded zero s = []
padded (suc n) [] = 0 ∷ padded n []
padded (suc n) (c ∷ s) = c ∷ padded n s

padded-nil : (n : ℕ) → replicate n 0 ≡ padded n []
padded-nil zero = refl
padded-nil (suc n) = ap (λ l. 0 ∷ l) (padded-nil n)

-- `strncpy` of a string into an array of at least `n` bytes writes its first `n` bytes, with zero
-- bytes behind the end of a shorter one, reads nothing behind that end, and leaves the rest of the
-- array.
pub strncpy_lem :
    (dst s rest : List ℕ) (n : ℕ)
    → IsText s
    → n ≤ length dst
    → strncpy dst (s ++ 0 ∷ rest) n ≡ done (padded n s ++ drop n dst)
unfolding strncpy
strncpy_lem dst s rest zero h room = refl
strncpy_lem [] s rest (suc n) h room = absurd (omega arith)
strncpy_lem (d ∷ dst) [] rest (suc n) h room =
    memset_lem (d ∷ dst) 0 (suc n) room ∙ ap (λ l. done (l ++ drop n dst)) (padded-nil (suc n))
strncpy_lem (d ∷ dst) (c ∷ s) rest (suc n) h room =
    let e : c == 0 ≡ false = ground (arith, h.0) in
    rw (e, strncpy_lem dst s rest n h.1 (omega arith)) refl
