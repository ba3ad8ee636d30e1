-- ===== src/Json.antt =====
-- Values of untyped data: what a queue delivers before the code has looked at it. A number is an
-- integer or, by an index, one of the other finite numbers, which every test refuses.
use entity_developer_dashboa.Prelude.{
  ℕ, String, Bool, true, false, not, Option, none, some, ltb, leb, ◌===◌, truthy, ◌==◌,
}

pub data Number : Type 0 where
  -- n, and -(n + 1)
  nat neg : ℕ → Number
  frac : ℕ → Number

pub data Value : Type 0 where
  undefined null other : Value
  boolean : Bool → Value
  number : Number → Value
  text : String → Value

-- Number.MAX_SAFE_INTEGER
abbrev pub max_safe_integer : ℕ
max_safe_integer = 9007199254740991

-- Number.isSafeInteger(n), of a stored number
abbrev pub is_safe : ℕ → Bool
is_safe n = leb n max_safe_integer

-- Number.isSafeInteger(v)
unfoldable pub is_safe_integer : Value → Bool
is_safe_integer (number (nat n)) = is_safe n
is_safe_integer (number (neg n)) = ltb n max_safe_integer
is_safe_integer _ = false

-- !!v
unfoldable pub is_truthy : Value → Bool
is_truthy undefined = false
is_truthy null = false
is_truthy other = true
is_truthy (boolean b) = b
is_truthy (number (nat n)) = not (n == 0)
is_truthy (number (neg n)) = true
is_truthy (number (frac n)) = true
is_truthy (text s) = truthy s

-- typeof v === 'string'
abbrev pub as_text : Value → Option String
as_text (text s) = some s
as_text _ = none

-- typeof v === 'number'
abbrev pub as_number : Value → Option Number
as_number (number n) = some n
as_number _ = none

-- The value of an integer that the code has tested; the other values are not reached.
abbrev pub as_nat : Value → ℕ
as_nat (number (nat n)) = n
as_nat _ = 0

-- v === s
abbrev pub is_text : Value → String → Bool
is_text (text t) s = t === s
is_text _ s = false

-- v === n
abbrev pub is_nat : Value → ℕ → Bool
is_nat (number (nat m)) n = m == n
is_nat _ n = false

-- v < 0 and v <= 0, of a safe integer
unfoldable pub is_negative : Value → Bool
is_negative (number (neg n)) = true
is_negative _ = false

unfoldable pub is_positive : Value → Bool
is_positive (number (nat n)) = ltb 0 n
is_positive _ = false

-- a >= b, of safe integers
unfoldable pub is_ge : Value → Value → Bool
is_ge (number (nat m)) (number (nat n)) = leb n m
is_ge (number (nat m)) (number (neg n)) = true
is_ge (number (neg m)) (number (neg n)) = leb m n
is_ge _ _ = false
