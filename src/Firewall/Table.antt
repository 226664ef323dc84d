-- ===== src/Firewall/Table.antt =====
-- jordyOS/net/firewall.c: the rule table as a list, under `fw_add` and `fw_delete`.
use os_research_lab.Base.{
  ℕ, zero, suc, ◌+◌, ◌-◌, ◌≤◌, ◌<◌, List, [], ◌∷◌, ◌++◌, some, none, Bool, true, false, ◌||◌, ltb,
  ◌==◌, length, get_or, set, take, length-set, ◌≡◌, ◌⊎◌, inl, inr, Bool-cases, refl, ap, ◌∙◌, arith,
}
use os_research_lab.Firewall.{
  FirewallRule, Firewall, fw_rules, zero_rule, rule_ok, fw_add, shift_down, fw_delete,
}

-- The rules in use, in order.
abbrev pub active : Firewall → List FirewallRule
active fw = take fw.count fw.rules

-- A list without the element at an index.
abbrev pub remove_at {ℓ} : {A : Type ℓ} → ℕ → List A → List A
remove_at i [] = []
remove_at zero (x ∷ xs) = xs
remove_at (suc i) (x ∷ xs) = x ∷ remove_at i xs

abbrev pub All : (FirewallRule → Bool) → List FirewallRule → Type 0
All p [] = Unit {0}
All p (x ∷ xs) = (p x ≡ true) × All p xs

pub record IsTable (fw : Firewall) : Type 0 where
  pub size : length fw.rules ≡ fw_rules
  pub within : fw.count ≤ fw_rules
  pub sound : All rule_ok (active fw)

All-append :
    (p : FirewallRule → Bool) (xs : List FirewallRule) (x : FirewallRule)
    → All p xs
    → p x ≡ true
    → All p (xs ++ x ∷ [])
All-append p [] x h e = (e, tt)
All-append p (y ∷ xs) x h e = (h.0, All-append p xs x h.1 e)

All-remove_at :
    (p : FirewallRule → Bool) (i : ℕ) (xs : List FirewallRule) → All p xs → All p (remove_at i xs)
All-remove_at p i [] h = tt
All-remove_at p zero (x ∷ xs) h = h.1
All-remove_at p (suc i) (x ∷ xs) h = (h.0, All-remove_at p i xs h.1)

take-set :
    (xs : List FirewallRule) (n : ℕ) (x : FirewallRule)
    → n < length xs
    → take (suc n) (set xs n x) ≡ take n xs ++ x ∷ []
take-set [] n x h = absurd (omega arith)
take-set (y ∷ xs) zero x h = refl
take-set (y ∷ xs) (suc n) x h = ap (◌∷◌ y) (take-set xs n x (omega arith))

-- Shifting down from `i` under a longer list leaves its head.
shift_down-cons :
    (y : FirewallRule) (xs : List FirewallRule) (i left : ℕ)
    → shift_down (y ∷ xs) (suc (suc i)) left ≡ y ∷ shift_down xs (suc i) left
unfolding shift_down
shift_down-cons y xs i zero = refl
shift_down-cons y xs i (suc left) =
    let e : suc (suc i) + 1 ≡ suc (suc (i + 1)) = omega arith in
    let e' : suc i + 1 ≡ suc (i + 1) = omega arith in
    let d : suc (suc i) - 1 ≡ suc i = omega arith in
    let d' : suc i - 1 ≡ i = omega arith in
    rw (d, d', e, e') (shift_down-cons y (set xs i (get_or xs (suc i) zero_rule)) (i + 1) left)

take-shift_down_first :
    (x : FirewallRule) (ys : List FirewallRule) (left : ℕ)
    → left ≤ length ys
    → take left (shift_down (x ∷ ys) 1 left) ≡ take left ys
unfolding shift_down
take-shift_down_first x ys zero h = refl
take-shift_down_first x [] (suc left) h = absurd (omega arith)
take-shift_down_first x (y ∷ ys) (suc left) h =
    rw (shift_down-cons y (y ∷ ys) 0 left)
      (ap (◌∷◌ y) (take-shift_down_first y ys left (omega arith)))

-- The loop of `fw_delete` closes the gap.
take-shift_down :
    (xs : List FirewallRule) (i left : ℕ)
    → suc i + left ≤ length xs
    → take (i + left) (shift_down xs (suc i) left) ≡ remove_at i (take (suc i + left) xs)
take-shift_down [] i left h = absurd (omega arith)
take-shift_down (x ∷ ys) zero left h =
    let e : 0 + left ≡ left = omega arith in
    let e' : 1 + left ≡ suc left = omega arith in
    rw (e, e') (take-shift_down_first x ys left (omega arith))
take-shift_down (x ∷ ys) (suc i) left h =
    let e : suc i + left ≡ suc (i + left) = omega arith in
    let e' : suc (suc i) + left ≡ suc (suc i + left) = omega arith in
    rw (e', shift_down-cons x ys i left, e)
      (ap (◌∷◌ x) (rw e at (take-shift_down ys i left (omega arith))))

length-shift_down :
    (xs : List FirewallRule) (i left : ℕ) → length (shift_down xs i left) ≡ length xs
unfolding shift_down
length-shift_down xs i zero = refl
length-shift_down xs i (suc left) =
    length-shift_down (set xs (i - 1) (get_or xs i zero_rule)) (i + 1) left
    ∙ length-set xs (i - 1) _

-- Of a well-formed table with room, `fw_add` accepts exactly the rules whose direction, protocol
-- and port agree; it appends the rule with no hits behind the active rules, and the table stays
-- well formed.
pub fw_add_lem :
    (fw : Firewall) (rule : FirewallRule)
    → IsTable fw
    → fw.count < fw_rules
    → ((rule_ok rule ≡ false) × (fw_add fw rule ≡ none))
      ⊎ ((fw' : Firewall) × (rule_ok rule ≡ true)
          × (fw_add fw rule ≡ some fw')
          × (active fw' ≡ active fw ++ record rule { hits = 0 } ∷ [])
          × IsTable fw')
unfolding fw_add
fw_add_lem fw rule table room = elim (Bool-cases (rule_ok rule)) [
  | inr bad ↦ inl (bad, ground arith)
  | inl good ↦
      let rule' : FirewallRule = record rule { hits = 0 } in
      let e : fw.count + 1 ≡ suc fw.count = omega arith in
      let appended : take (fw.count + 1) (set fw.rules fw.count rule') ≡ active fw ++ rule' ∷ [] =
        rw e (take-set fw.rules fw.count rule' (omega (arith, table.size))) in
      inr (
        record fw { rules = set fw.rules fw.count rule'; count = fw.count + 1 },
        good,
        ground arith,
        appended,
        record {
          size = length-set fw.rules fw.count rule' ∙ table.size;
          within = omega arith;
          sound = rw appended (All-append rule_ok (active fw) rule' table.sound good);
        },
      )
]

-- `fw_delete` refuses 0 and numbers beyond the active rules. Otherwise it takes the rule of that
-- number, counted from 1, out of the active rules, keeps the others in their order, and the table
-- stays well formed.
pub fw_delete_lem :
    (fw : Firewall) (number : ℕ)
    → IsTable fw
    → ((number ≡ 0) ⊎ (fw.count < number)) × (fw_delete fw number ≡ none)
      ⊎ ((fw' : Firewall) × (0 < number)
          × (number ≤ fw.count)
          × (fw_delete fw number ≡ some fw')
          × (active fw' ≡ remove_at (number - 1) (active fw))
          × IsTable fw')
unfolding fw_delete
fw_delete_lem fw number table = elim (Bool-cases ((number == 0) || ltb fw.count number)) [
  | inl bad ↦ inl (ground arith, rw bad)
  | inr good ↦
      let range : (0 < number) × (number ≤ fw.count) = ground arith in
      let left = fw.count - number in
      let n : suc (number - 1) ≡ number = omega arith in
      let total : number - 1 + left ≡ fw.count - 1 = omega arith in
      let whole : suc (number - 1) + left ≡ fw.count = omega arith in
      let gone : take (fw.count - 1) (shift_down fw.rules number left)
          ≡ remove_at (number - 1) (active fw) =
        rw (total, whole, n) at
          (take-shift_down fw.rules (number - 1) left (omega (arith, table.size))) in
      inr (
        record fw { rules = shift_down fw.rules number left; count = fw.count - 1 },
        range.0,
        range.1,
        rw good,
        gone,
        record {
          size = length-shift_down fw.rules number left ∙ table.size;
          within = omega (arith, table.within);
          sound = rw gone (All-remove_at rule_ok (number - 1) (active fw) table.sound);
        },
      )
]
