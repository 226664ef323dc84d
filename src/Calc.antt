-- ===== src/Calc.antt =====
-- jordyOS/app_calc.c: the calculator. An int32_t is given by its bit pattern; a signed overflow, which
-- C leaves undefined, is a `fault`, as is a read behind the line.
pub mod Parse
pub mod Answer
mod Tests
use os_research_lab.Base.{
  ℕ, zero, suc, ◌+◌, ◌-◌, ◌*◌, ◌/◌, ◌^◌, ◌%◌, List, [], ◌∷◌, ◌++◌, Bool, true, false, not, ◌&&◌,
  ◌||◌, leb, ltb, ◌==◌, ◌!=◌, u32, if◌then◌else◌,
}
use os_research_lab.Base.Fault.{Outcome, fault, reject, done, ◌>>=◌, ◌>>◌}
use os_research_lab.Text.{is_digit, atoi, itoa, is_negative, magnitude}

-- `while (*ln == ' ') ln++`
unfoldable pub skip_spaces : List ℕ → Outcome (List ℕ)
skip_spaces [] = fault
skip_spaces (c ∷ ln) = let rest = skip_spaces ln in if c == 32 then rest else done (c ∷ ln)

-- The operation, at most as many bytes as given, and the rest of the line.
unfoldable pub take_op : ℕ → List ℕ → Outcome (List ℕ × List ℕ)
take_op left [] = fault
take_op zero (c ∷ ln) = done ([], c ∷ ln)
take_op (suc left) (c ∷ ln) =
    let rest = take_op left ln in
    if (c != 32) && (c != 0) then (do (op, ln') ← rest; done (c ∷ op, ln')) else done ([], c ∷ ln)

-- `while (*ln >= '0' && *ln <= '9') ln++`
unfoldable pub skip_digits : List ℕ → Outcome (List ℕ)
skip_digits [] = fault
skip_digits (c ∷ ln) = let rest = skip_digits ln in if is_digit c then rest else done (c ∷ ln)

-- `if (*ln == '-') ln++` before the digits.
unfoldable pub skip_number : List ℕ → Outcome (List ℕ)
unfolding skip_digits
skip_number [] = fault
skip_number (c ∷ ln) = if c == 45 then skip_digits ln else skip_digits (c ∷ ln)

-- `!*ln`
abbrev pub at_end : List ℕ → Outcome Bool
at_end [] = fault
at_end (c ∷ ln) = done (c == 0)

abbrev pub op_buf_size : ℕ
op_buf_size = 8

-- What `parse` returns and stores.
pub record Parsed : Type 0 where
  pub code : ℕ
  pub op : List ℕ
  pub a : ℕ
  pub b : ℕ

abbrev pub parsed : ℕ → List ℕ → ℕ → ℕ → Outcome Parsed
parsed code op a b = done (record { code = code; op = op; a = a; b = b })

abbrev pub is_empty : List ℕ → Bool
is_empty [] = true
is_empty (c ∷ s) = false

-- The second number.
unfoldable pub parse_last : List ℕ → ℕ → List ℕ → Outcome Parsed
unfolding skip_spaces
parse_last op a ln = do
  ln ← skip_spaces ln
  ended ← at_end ln
  if ended then parsed 2 op a 0 else (do b ← atoi ln; parsed 3 op a b)

-- The two numbers behind the operation.
unfoldable pub parse_numbers : List ℕ → List ℕ → Outcome Parsed
unfolding skip_spaces skip_number parse_last
parse_numbers op ln = do
  ln ← skip_spaces ln
  ended ← at_end ln
  if ended then parsed 1 op 0 0 else (do a ← atoi ln; ln ← skip_number ln; parse_last op a ln)

unfoldable pub parse : List ℕ → Outcome Parsed
unfolding skip_spaces take_op parse_numbers
parse ln = do
  ln ← skip_spaces ln
  (op, ln) ← take_op (op_buf_size - 1) ln
  ended ← at_end ln
  if ended then parsed (if is_empty op then 0 else 1) op 0 0 else parse_numbers op ln

-- `!strcmp(a, b)` of texts without their zero bytes.
unfoldable pub text_eq : List ℕ → List ℕ → Bool
text_eq [] [] = true
text_eq [] (d ∷ t) = false
text_eq (c ∷ s) [] = false
text_eq (c ∷ s) (d ∷ t) = (c == d) && text_eq s t

-- A sign with a magnitude as an int32_t, if it is one.
abbrev pub int32 : Bool → ℕ → Outcome ℕ
int32 negative m =
    if leb m (if negative then 2 ^ 31 else 2 ^ 31 - 1)
    then done (if negative then u32 (2 ^ 32 - m) else m)
    else fault

-- The sum of two signed magnitudes.
abbrev pub signed_sum : Bool → ℕ → Bool → ℕ → Outcome ℕ
signed_sum s m t n =
    if (s && t) || (not s && not t)
    then int32 s (m + n)
    else if leb n m
    then int32 s (m - n)
    else int32 t (n - m)

unfoldable pub int_add : ℕ → ℕ → Outcome ℕ
int_add a b = signed_sum (is_negative a) (magnitude a) (is_negative b) (magnitude b)

unfoldable pub int_sub : ℕ → ℕ → Outcome ℕ
int_sub a b = signed_sum (is_negative a) (magnitude a) (not (is_negative b)) (magnitude b)

abbrev pub differ : Bool → Bool → Bool
differ s t = (s && not t) || (not s && t)

unfoldable pub int_mul : ℕ → ℕ → Outcome ℕ
int_mul a b = int32 (differ (is_negative a) (is_negative b)) (magnitude a * magnitude b)

-- Of a divisor that is not 0; C cuts towards 0.
unfoldable pub int_div : ℕ → ℕ → Outcome ℕ
int_div a b = int32 (differ (is_negative a) (is_negative b)) (magnitude a / magnitude b)

-- What one round of the loop answers.
pub data Reply : Type 0 where
  leave syntax division_by_zero : Reply
  unknown : List ℕ → Reply
  answer : List ℕ → Reply

abbrev pub op_add : List ℕ
op_add = 97 ∷ 100 ∷ 100 ∷ []

abbrev pub op_sub : List ℕ
op_sub = 115 ∷ 117 ∷ 98 ∷ []

abbrev pub op_mul : List ℕ
op_mul = 109 ∷ 117 ∷ 108 ∷ []

abbrev pub op_div : List ℕ
op_div = 100 ∷ 105 ∷ 118 ∷ []

abbrev pub op_exit : List ℕ
op_exit = 101 ∷ 120 ∷ 105 ∷ 116 ∷ []

abbrev pub op_quit : List ℕ
op_quit = 113 ∷ 117 ∷ 105 ∷ 116 ∷ []

abbrev pub answered : Outcome ℕ → Outcome Reply
answered o = o >>= λ res. done (answer (itoa res))

-- The operation of a line with both numbers.
unfoldable pub operate : List ℕ → ℕ → ℕ → Outcome Reply
unfolding text_eq
operate op a b =
    if text_eq op op_add
    then answered (int_add a b)
    else if text_eq op op_sub
    then answered (int_sub a b)
    else if text_eq op op_mul
    then answered (int_mul a b)
    else if text_eq op op_div
    then (if b != 0 then answered (int_div a b) else done division_by_zero)
    else done (unknown op)

-- By what `parse` returned.
unfoldable pub reply_to : Parsed → Outcome Reply
unfolding operate
reply_to p =
    if (p.code == 1) && (text_eq p.op op_exit || text_eq p.op op_quit)
    then done leave
    else if p.code != 3
    then done syntax
    else operate p.op p.a p.b

-- A round of the loop of `app_calc` on the line that was read.
unfoldable pub app_calc : List ℕ → Outcome Reply
unfolding parse reply_to
app_calc ln = do p ← parse ln; reply_to p
