-- ===== src/Common/Texts.antt =====
-- Rust's `String` and `&str` as the list of its characters' code points, with the methods of the
-- standard library that the program calls.
use Prim.Native.Nat.{ℕ, zero, suc, ◌+◌, ◌-◌, ◌*◌, ◌/◌, ◌%◌}
use Prim.Native.Char.{code}
use Prim.Native.String.{String}
use mathlib.Core.Path.{◌≡◌}
use mathlib.Core.Logic.{◌↔◌, ◌≢◌}
use mathlib.Core.Bool.{Bool, true, false, ◌&&◌, ◌||◌}
use mathlib.Core.Option.{Option, none, some}
use mathlib.Core.Option
use mathlib.Core.List.{List, [], ◌∷◌, map, reverse}
use native.Mathlib.Omega.{arith}
use place_net_hamlet.Common.Tests.{leb, ◌==◌, if◌then◌else◌, Eq, is_some}

abbrev pub Text : Type 0
Text = List ℕ

-- A literal of the source.
unfoldable pub utf8 : String → Text
utf8 String.[] = []
utf8 (String.◌∷◌ c s) = code c ∷ utf8 s

unfoldable pub text_same : Text → Text → Bool
text_same [] [] = true
text_same [] (d ∷ t) = false
text_same (c ∷ s) [] = false
text_same (c ∷ s) (d ∷ t) = c == d && text_same s t

pub text_same_iff : (s t : Text) → (text_same s t ≡ true) ↔ (s ≡ t)
unfolding text_same
text_same_iff [] [] = ground arith
text_same_iff [] (d ∷ t) = ground arith
text_same_iff (c ∷ s) [] = ground arith
text_same_iff (c ∷ s) (d ∷ t) = ground (arith, text_same_iff s t)

pub text_same-ne : (s t : Text) → text_same s t ≡ false → s ≢ t
text_same-ne s t h e = ground (arith, text_same_iff s t)

instance abbrev pub text_eq : Eq Text
text_eq = record { same = text_same; same_iff = text_same_iff }

-- `str::is_empty`.
abbrev pub is_empty : Text → Bool
is_empty [] = true
is_empty (c ∷ s) = false

-- `str::strip_prefix`, with the prefix first.
unfoldable pub strip_prefix : Text → Text → Option Text
strip_prefix [] s = some s
strip_prefix (p ∷ ps) [] = none
strip_prefix (p ∷ ps) (c ∷ s) = let rest = strip_prefix ps s in if p == c then rest else none

unfoldable pub starts_with : Text → Text → Bool
unfolding strip_prefix
starts_with p s = is_some (strip_prefix p s)

-- `str::strip_suffix`, with the suffix first.
unfoldable pub strip_suffix : Text → Text → Option Text
unfolding text_same
strip_suffix suffix [] = if text_same [] suffix then some [] else none
strip_suffix suffix (c ∷ s) =
    let rest = Option.map (λ p. c ∷ p) (strip_suffix suffix s) in
    if text_same (c ∷ s) suffix then some [] else rest

unfoldable pub ends_with : Text → Text → Bool
unfolding strip_suffix
ends_with suffix s = is_some (strip_suffix suffix s)

-- `str::trim_end_matches` at one character.
unfoldable pub trim_end_matches : ℕ → Text → Text
trim_end_matches ch [] = []
trim_end_matches ch (c ∷ s) =
    let rest = trim_end_matches ch s in if is_empty rest && c == ch then [] else c ∷ rest

-- `str::split_once` at one character: the first place where it stands.
unfoldable pub split_once : ℕ → Text → Option (Text × Text)
split_once ch [] = none
split_once ch (c ∷ s) =
    let rest = Option.map (λ (p : Text × Text). let (a, b) = p in (c ∷ a, b)) (split_once ch s) in
    if c == ch then some ([], s) else rest

-- `str::split` at one character, as the list that its iterator yields.
unfoldable pub split : ℕ → Text → List Text
split ch [] = [] ∷ []
split ch (c ∷ s) = elim (split ch s) [
  | [] ↦ []
  | part ∷ parts ↦ if c == ch then [] ∷ part ∷ parts else (c ∷ part) ∷ parts
]

-- `str::rsplit_once` at one character: the last place where it stands.
unfoldable pub rsplit_once : ℕ → Text → Option (Text × Text)
rsplit_once ch [] = none
rsplit_once ch (c ∷ s) = elim (rsplit_once ch s) [
  | some p ↦ some (c ∷ p.0, p.1)
  | none ↦ if c == ch then some ([], s) else none
]

-- `char::is_whitespace`.
unfoldable pub is_whitespace : ℕ → Bool
is_whitespace c =
    (leb 9 c && leb c 13)
    || c == 32
    || c == 0x85
    || c == 0xa0
    || c == 0x1680
    || (leb 0x2000 c && leb c 0x200a)
    || c == 0x2028
    || c == 0x2029
    || c == 0x202f
    || c == 0x205f
    || c == 0x3000

unfoldable pub trim_start : Text → Text
trim_start [] = []
trim_start (c ∷ s) = let rest = trim_start s in if is_whitespace c then rest else c ∷ s

-- `str::trim`.
unfoldable pub trim : Text → Text
unfolding trim_start is_whitespace
trim s = reverse (trim_start (reverse (trim_start s)))

unfoldable pub to_ascii_lowercase : ℕ → ℕ
to_ascii_lowercase c = if leb b'A' c && leb c b'Z' then c + 32 else c

unfoldable pub eq_ignore_ascii_case : Text → Text → Bool
unfolding to_ascii_lowercase text_same
eq_ignore_ascii_case s t = text_same (map to_ascii_lowercase s) (map to_ascii_lowercase t)

unfoldable pub is_digit : ℕ → Bool
is_digit c = leb b'0' c && leb c b'9'

-- The value of a run of digits that goes on from `acc`; `none` at another character or above `top`.
unfoldable pub parse_digits : ℕ → ℕ → Text → Option ℕ
unfolding is_digit
parse_digits top acc [] = some acc
parse_digits top acc (c ∷ s) =
    let next = acc * 10 + (c - b'0') in
    let rest = parse_digits top next s in if is_digit c && leb next top then rest else none

-- `str::parse` at an unsigned type whose largest value is `top`: a sign `+` may stand in front.
unfoldable pub parse_uint : ℕ → Text → Option ℕ
unfolding parse_digits
parse_uint top [] = none
parse_uint top (c ∷ s) =
    if c == b'+'
    then (if is_empty s then none else parse_digits top 0 s)
    else parse_digits top 0 (c ∷ s)

-- The decimal digits of a number below 10 ^ fuel, in front of `acc`.
unfoldable pub show_digits : ℕ → ℕ → Text → Text
show_digits zero n acc = acc
show_digits (suc fuel) n acc =
    let more = show_digits fuel (n / 10) ((b'0' + n % 10) ∷ acc) in
    if n / 10 == 0 then (b'0' + n % 10) ∷ acc else more

-- `Display` of an unsigned integer of at most 64 bits.
unfoldable pub show_uint : ℕ → Text
unfolding show_digits
show_uint n = show_digits 20 n []
