-- ===== src/Strings.antt =====
-- The parts of the standard library's `String` that crates/easy-usb-core/src/port/types.rs uses:
-- `from_utf8_lossy` and `trim_end_matches('\0')`; and the bytes of a `&str`.
pub mod Chars
pub mod Steps
pub mod Decoding
pub mod Validity
use Prim.Native.Char.{Char, code}
use Prim.Native.String.{String}
use easy_usb.Base.{
  ℕ, ◌+◌, ◌-◌, ◌*◌, ◌/◌, ◌%◌, Bool, true, false, ◌&&◌, List, [], ◌∷◌, ◌++◌, ◌==◌, leb, ltb,
  if◌then◌else◌,
}
use easy_usb.Server.Utf8.{Due, lead}
use Chars.{char_of}

-- What the scan has met of a character: the bytes still due and the bits so far.
pub record Scan : Type 0 where
  pub due : Due
  pub bits : ℕ

abbrev pub between : Scan
between = record { due = record { more = 0; low = 0x80; high = 0xbf }; bits = 0 }

-- U+FFFD, which stands for bytes that are not a character.
abbrev pub replacement : ℕ
replacement = 0xfffd

-- The bits of a character that its first byte holds.
unfoldable pub lead_bits : ℕ → ℕ
lead_bits b =
    if ltb b 0x80 then b else if ltb b 0xe0 then b % 32 else if ltb b 0xf0 then b % 16 else b % 8

-- A first byte: what it completes, and the state behind it.
unfoldable pub first_byte : ℕ → List ℕ × Scan
unfolding lead lead_bits
first_byte b =
    if (lead b).more == 0
    then (b ∷ [], between)
    else if ltb (lead b).more 4
    then ([], record { due = lead b; bits = lead_bits b })
    else (replacement ∷ [], between)

-- A byte that was due.
unfoldable pub next_byte : Scan → ℕ → List ℕ × Scan
next_byte s b = if s.due.more == 1 then ((s.bits * 64 + b % 64) ∷ [], between) else (
  [],
  record {
    due = record { more = s.due.more - 1; low = 0x80; high = 0xbf };
    bits = s.bits * 64 + b % 64;
  },
)

abbrev after_replacement : List ℕ × Scan → List ℕ × Scan
after_replacement (points, s) = (replacement ∷ points, s)

-- One byte. Where another was due, the bytes of the broken character are replaced as one, and the byte
-- is looked at anew.
unfoldable pub scan_byte : Scan → ℕ → List ℕ × Scan
unfolding first_byte next_byte
scan_byte s b =
    if s.due.more == 0
    then first_byte b
    else if leb s.due.low b && leb b s.due.high
    then next_byte s b
    else after_replacement (first_byte b)

unfoldable pub scan : Scan → List ℕ → List ℕ
unfolding scan_byte
scan s [] = if s.due.more == 0 then [] else replacement ∷ []
scan s (b ∷ bs) = (scan_byte s b).0 ++ scan (scan_byte s b).1 bs

-- The text of some scalar values.
unfoldable pub text_of : List ℕ → String
text_of [] = String.[]
text_of (n ∷ ns) = String.◌∷◌ (char_of n) (text_of ns)

-- `String::from_utf8_lossy`.
unfoldable pub from_utf8_lossy : List ℕ → String
unfolding scan text_of
from_utf8_lossy bs = text_of (scan between bs)

abbrev pub cons_unless_end : Char → String → String
cons_unless_end c String.[] = if code c == 0 then String.[] else String.◌∷◌ c String.[]
cons_unless_end c (String.◌∷◌ d s) = String.◌∷◌ c (String.◌∷◌ d s)

-- `trim_end_matches('\0')`.
unfoldable pub trim_end_nul : String → String
trim_end_nul String.[] = String.[]
trim_end_nul (String.◌∷◌ c s) = cons_unless_end c (trim_end_nul s)

-- The UTF-8 of a scalar value.
unfoldable pub point_bytes : ℕ → List ℕ
point_bytes n =
    if ltb n 0x80
    then n ∷ []
    else if ltb n 0x800
    then (0xc0 + n / 64) ∷ (0x80 + n % 64) ∷ []
    else if ltb n 0x10000
    then (0xe0 + n / 4096) ∷ (0x80 + n / 64 % 64) ∷ (0x80 + n % 64) ∷ []
    else (0xf0 + n / 262144) ∷ (0x80 + n / 4096 % 64) ∷ (0x80 + n / 64 % 64) ∷ (0x80 + n % 64) ∷ []

-- The bytes of a `&str`.
unfoldable pub as_bytes : String → List ℕ
unfolding point_bytes
as_bytes String.[] = []
as_bytes (String.◌∷◌ c s) = point_bytes (code c) ++ as_bytes s

-- The characters of a text as numbers.
abbrev pub codes : String → List ℕ
codes String.[] = []
codes (String.◌∷◌ c s) = code c ∷ codes s
