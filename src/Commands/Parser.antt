-- ===== src/Commands/Parser.antt =====
-- `CommandParser` of crates/commands/src/lib.rs, with what it uses of numbers and of lower case.
use rust_mine.Base.{
  ℕ, ◌+◌, ◌-◌, ◌*◌, ◌^◌, leb, ltb, ◌==◌, ◌&&◌, ◌||◌, not, if◌then◌else◌, Bool, true, false, List,
  [], ◌∷◌, ◌++◌, map, Option, none, some,
}
use mathlib.Core.List.{reverse}
use rust_mine.Base.Int.{ℤ, pos, sub_ℕ}
use rust_mine.Base.Text.{codes}
use rust_mine.Commands.{same_text}

-- `char::is_whitespace`.
abbrev pub is_whitespace : ℕ → Bool
is_whitespace c =
    leb 9 c && leb c 13
    || c == 32
    || c == 0x85
    || c == 0xa0
    || c == 0x1680
    || leb 0x2000 c && leb c 0x200a
    || c == 0x2028
    || c == 0x2029
    || c == 0x202f
    || c == 0x205f
    || c == 0x3000

abbrev pub trim_start : List ℕ → List ℕ
trim_start [] = []
trim_start (c ∷ cs) = let rest = trim_start cs in if is_whitespace c then rest else c ∷ cs

unfoldable pub trim : List ℕ → List ℕ
trim s = reverse (trim_start (reverse (trim_start s)))

-- `strip_prefix('/').unwrap_or(raw)`.
abbrev pub strip_slash : List ℕ → List ℕ
strip_slash [] = []
strip_slash (c ∷ cs) = if c == 47 then cs else c ∷ cs

-- The variables of the loop of `CommandParser::parse`.
pub record Scan : Type 0 where
  pub parts : List (List ℕ)
  pub current : List ℕ
  pub in_quotes : Bool
  pub quote_char : ℕ

abbrev pub is_quote : ℕ → Bool
is_quote c = c == 34 || c == 39

abbrev pub is_blank : ℕ → Bool
is_blank c = c == 32 || c == 9

-- The parts with the current one behind them, if it is not empty.
abbrev pub push_part : List (List ℕ) → List ℕ → List (List ℕ)
push_part parts [] = parts
push_part parts (c ∷ cs) = parts ++ (c ∷ cs) ∷ []

unfoldable pub scan_char : ℕ → Scan → Scan
scan_char ch s =
    if is_quote ch && not s.in_quotes
    then record s { in_quotes = true; quote_char = ch }
    else if is_quote ch && ch == s.quote_char
    then record s { in_quotes = false }
    else if is_blank ch && not s.in_quotes
    then record s { parts = push_part s.parts s.current; current = [] }
    else record s { current = s.current ++ ch ∷ [] }

unfoldable pub scan : List ℕ → Scan → Scan
unfolding scan_char
scan [] s = s
scan (ch ∷ chs) s = scan chs (scan_char ch s)

abbrev pub new_scan : Scan
new_scan = record { parts = []; current = []; in_quotes = false; quote_char = 34 }

abbrev pub all_parts : Scan → List (List ℕ)
all_parts s = push_part s.parts s.current

abbrev pub label_and_args : List (List ℕ) → List ℕ × List (List ℕ)
label_and_args [] = ([], [])
label_and_args (label ∷ args) = (label, args)

abbrev pub parse_trimmed : List ℕ → List ℕ × List (List ℕ)
parse_trimmed [] = ([], [])
parse_trimmed (c ∷ cs) = label_and_args (all_parts (scan (strip_slash (c ∷ cs)) new_scan))

-- `CommandParser::parse`.
unfoldable pub parse : List ℕ → List ℕ × List (List ℕ)
unfolding trim scan
parse raw = parse_trimmed (trim raw)

-- `str::parse` to a u32 and an i32: a sign, digits, and a value in range.
unfoldable pub parse_digits : List ℕ → ℕ → Option ℕ
parse_digits [] n = some n
parse_digits (c ∷ cs) n =
    let rest = parse_digits cs (n * 10 + (c - 48)) in if leb 48 c && leb c 57 then rest else none

abbrev pub parse_number : List ℕ → Option ℕ
parse_number [] = none
parse_number (c ∷ cs) = parse_digits (c ∷ cs) 0

abbrev pub at_most : ℕ → Option ℕ → Option ℕ
at_most top none = none
at_most top (some n) = if leb n top then some n else none

unfoldable pub parse_u32 : List ℕ → Option ℕ
unfolding parse_digits
parse_u32 [] = none
parse_u32 (c ∷ cs) =
    at_most (2 ^ 32 - 1) (if c == 43 then parse_number cs else parse_number (c ∷ cs))

abbrev pub map_int : (ℕ → ℤ) → Option ℕ → Option ℤ
map_int f none = none
map_int f (some n) = some (f n)

unfoldable pub parse_i32 : List ℕ → Option ℤ
unfolding parse_digits
parse_i32 [] = none
parse_i32 (c ∷ cs) =
    if c == 45
    then map_int (sub_ℕ 0) (at_most (2 ^ 31) (parse_number cs))
    else map_int pos
        (at_most (2 ^ 31 - 1) (if c == 43 then parse_number cs else parse_number (c ∷ cs)))

-- What the code uses of floats and of Unicode: an f32 or f64 is its bit pattern.
pub record TextOps : Type 0 where
  pub unicode_lowercase : List ℕ → List ℕ
  pub parse_f64 : List ℕ → Option ℕ
  pub show_f64 : ℕ → List ℕ
  pub parse_f32 : List ℕ → Option ℕ
  pub show_f32 : ℕ → List ℕ
  pub add_f64 : ℕ → ℕ → ℕ

abbrev pub lower : ℕ → ℕ
lower c = if leb 65 c && leb c 90 then c + 32 else c

abbrev pub is_ascii : List ℕ → Bool
is_ascii [] = true
is_ascii (c ∷ cs) = ltb c 128 && is_ascii cs

module _ (t : TextOps) where
  -- `to_lowercase`; what it does to other texts than ASCII is a parameter.
  unfoldable pub to_lowercase : List ℕ → List ℕ
  to_lowercase s = if is_ascii s then map lower s else t.unicode_lowercase s

  -- `0.0` where nothing follows the tilde.
  abbrev pub relative : List ℕ → Option ℕ
  relative [] = some 0
  relative (c ∷ cs) = t.parse_f64 (c ∷ cs)

  abbrev pub add_to : ℕ → Option ℕ → Option ℕ
  add_to current none = none
  add_to current (some base) = some (t.add_f64 current base)

  -- `CommandParser::parse_coord`.
  unfoldable pub parse_coord : List ℕ → ℕ → Option ℕ
  parse_coord [] current = some current
  parse_coord (c ∷ cs) current =
      if same_text (c ∷ cs) (codes "~")
      then some current
      else if c == 126
      then add_to current (relative cs)
      else t.parse_f64 (c ∷ cs)

-- `CommandParser::parse_target`.
unfoldable pub parse_target : List ℕ → Option (List ℕ)
unfolding trim
parse_target arg =
    let trimmed = trim arg in
    if same_text trimmed []
      || same_text (map lower trimmed) (codes "self")
      || same_text trimmed (codes "@s")
    then none
    else some trimmed
