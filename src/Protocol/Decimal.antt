-- ===== src/Protocol/Decimal.antt =====
-- `std::to_string` and `std::stoul` of the C++ library on 64-bit `unsigned long`, and `ParseIndex`.
pub mod RoundTrip
use oac_tree_server.Base.{
  ℕ, zero, suc, ◌+◌, ◌-◌, ◌*◌, ◌/◌, ◌%◌, ◌^◌, Bool, true, false, not, ◌&&◌, ◌||◌, [], ◌∷◌, Option,
  none, some, Bytes, bytes_eq, leb, ltb, ◌==◌, if◌then◌else◌,
}

abbrev pub u32_max : ℕ
u32_max = 2 ^ 32 - 1

abbrev pub ulong_mod : ℕ
ulong_mod = 2 ^ 64

-- The digits of `n` in front of `out`; one unit of fuel is used for each digit.
pub emit : ℕ → ℕ → Bytes → Bytes
emit zero n out = out
emit (suc f) n out =
    let out' = (b'0' + n % 10) ∷ out in
    let rest = emit f (n / 10) out' in if ltb n 10 then out' else rest

unfoldable pub to_string : ℕ → Bytes
unfolding emit
to_string n = emit (suc n) n []

abbrev pub is_digit : ℕ → Bool
is_digit c = leb b'0' c && leb c b'9'

-- `isspace` in the C locale.
abbrev pub is_space : ℕ → Bool
is_space c = c == 32 || (leb 9 c && leb c 13)

pub skip_spaces : Bytes → Bytes
skip_spaces [] = []
skip_spaces (c ∷ s) = if is_space c then skip_spaces s else c ∷ s

-- The longest run of digits, read behind the number `n`.
pub scan : ℕ → Bytes → ℕ
scan n [] = n
scan n (c ∷ s) = elim (is_digit c) [ true ↦ scan (n * 10 + (c - b'0')) s | false ↦ n ]

-- `std::out_of_range`.
abbrev pub in_range : ℕ → Option ℕ
in_range n = if ltb n ulong_mod then some n else none

-- `std::invalid_argument` where there is no digit.
pub read_unsigned : Bytes → Option ℕ
unfolding scan
read_unsigned [] = none
read_unsigned (c ∷ s) = if is_digit c then in_range (scan 0 (c ∷ s)) else none

-- `strtoul` negates the result behind a minus sign, modulo 2^64.
abbrev pub negate : Option ℕ → Option ℕ
negate none = none
negate (some n) = some ((ulong_mod - n) % ulong_mod)

pub read_signed : Bytes → Option ℕ
unfolding read_unsigned
read_signed [] = none
read_signed (c ∷ s) =
    if c == b'-'
    then negate (read_unsigned s)
    else if c == b'+'
    then read_unsigned s
    else read_unsigned (c ∷ s)

-- `std::stoul`; `none` is an exception.
unfoldable pub stoul : Bytes → Option ℕ
unfolding skip_spaces read_signed
stoul s = read_signed (skip_spaces s)

pub check_index : Bytes → Option ℕ → Option ℕ
check_index s none = none
check_index s (some r) =
    if not (bytes_eq (to_string r) s) then none else if ltb u32_max r then none else some r

-- `ParseIndex`; `none` is the result `false`.
unfoldable pub parse_index : Bytes → Option ℕ
unfolding check_index stoul
parse_index s = check_index s (stoul s)
