-- ===== src/Strings/Decoding.antt =====
-- The scan reads the characters that the bytes of a text spell.
use Prim.Native.Char.{Char, code}
use Prim.Native.String.{String}
use mathlib.Core.Path.{ap₂}
use easy_usb.Base.{
  ℕ, ◌+◌, ◌*◌, ◌/◌, ◌%◌, ◌-◌, ◌<◌, ◌≤◌, ◌≡◌, ◌∙◌, ◌⊎◌, inl, inr, refl, ap, List, [], ◌∷◌, ◌++◌,
  arith, append_assoc, append-nil, replicate, zero, suc, sym,
}
use easy_usb.Server.Utf8.{lead}
use easy_usb.Strings.{
  Scan, between, scan_byte, scan, lead_bits, point_bytes, as_bytes, codes, text_of, from_utf8_lossy,
  trim_end_nul, cons_unless_end,
}
use easy_usb.Strings.Chars.{char_of, char_of-code}
use easy_usb.Strings.Steps.{
  ascii, waiting, last_byte, more_byte, lead_byte, lead_two, lead_three, lead_four, code-Width,
}

scan_step :
    (s s' : Scan) (b : ℕ) (bs points : List ℕ)
    → scan_byte s b ≡ (points, s')
    → scan s (b ∷ bs) ≡ points ++ scan s' bs
unfolding scan
scan_step s s' b bs points e = ap (λ (r : List ℕ × Scan). r.0 ++ scan r.1 bs) e

module _ (n : ℕ) (bs : List ℕ) where
  abbrev first : ℕ → Scan
  first b = record { due = lead b; bits = lead_bits b }

  scan_one : n < 0x80 → scan between (n ∷ bs) ≡ n ∷ scan between bs
  scan_one h = scan_step between between n bs (n ∷ []) (ascii n h)

  scan_two :
      0x80 ≤ n
      → n < 0x800
      → scan between ((0xc0 + n / 64) ∷ (0x80 + n % 64) ∷ bs) ≡ n ∷ scan between bs
  scan_two h k =
      let b = 0xc0 + n / 64 in
      let c = 0x80 + n % 64 in
      let (more, low, high, bits) = lead_two b (omega arith) (omega arith) in
      let whole : lead_bits b * 64 + c % 64 ≡ n = omega (arith, bits) in
      scan_step between (first b) b (c ∷ bs) [] (lead_byte b (omega arith) (omega arith))
      ∙ scan_step (first b) between c bs _
          (last_byte (first b) c more (omega (arith, low)) (omega (arith, high)))
      ∙ ap (λ (m : ℕ). m ∷ scan between bs) whole

  scan_three :
      0x800 ≤ n
      → n < 0x10000
      → (n < 0xd800) ⊎ (0xdfff < n)
      → scan between ((0xe0 + n / 4096) ∷ (0x80 + n / 64 % 64) ∷ (0x80 + n % 64) ∷ bs)
        ≡ n ∷ scan between bs
  scan_three h k scalar =
      let b = 0xe0 + n / 4096 in
      let c = 0x80 + n / 64 % 64 in
      let d = 0x80 + n % 64 in
      let (more, low, high, bits) = lead_three b (omega arith) (omega arith) in
      let above : (lead b).low ≤ c = ground (arith, low, h) in
      let under : c ≤ (lead b).high = ground (arith, high, scalar) in
      let second = waiting ((lead b).more - 1) 0x80 0xbf (lead_bits b * 64 + c % 64) in
      let whole : second.bits * 64 + d % 64 ≡ n = omega (arith, bits) in
      scan_step between (first b) b (c ∷ d ∷ bs) [] (lead_byte b (omega arith) (omega arith))
      ∙ scan_step (first b) second c (d ∷ bs) []
          (more_byte (first b) c (omega (arith, more)) above under)
      ∙ scan_step second between d bs _
          (last_byte second d (omega (arith, more)) (omega arith) (omega arith))
      ∙ ap (λ (m : ℕ). m ∷ scan between bs) whole

  scan_four :
      0x10000 ≤ n
      → n < 0x110000
      → scan between (
          (0xf0 + n / 262144)
          ∷ (0x80 + n / 4096 % 64)
          ∷ (0x80 + n / 64 % 64)
          ∷ (0x80 + n % 64)
          ∷ bs)
        ≡ n ∷ scan between bs
  scan_four h k =
      let a = 0xf0 + n / 262144 in
      let b = 0x80 + n / 4096 % 64 in
      let c = 0x80 + n / 64 % 64 in
      let d = 0x80 + n % 64 in
      let (more, low, high, bits) = lead_four a (omega arith) (omega arith) in
      let above : (lead a).low ≤ b = ground (arith, low, h) in
      let under : b ≤ (lead a).high = ground (arith, high, k) in
      let second = waiting ((lead a).more - 1) 0x80 0xbf (lead_bits a * 64 + b % 64) in
      let third = waiting (second.due.more - 1) 0x80 0xbf (second.bits * 64 + c % 64) in
      let whole : third.bits * 64 + d % 64 ≡ n = omega (arith, bits) in
      scan_step between (first a) a (b ∷ c ∷ d ∷ bs) [] (lead_byte a (omega arith) (omega arith))
      ∙ scan_step (first a) second b (c ∷ d ∷ bs) []
          (more_byte (first a) b (omega (arith, more)) above under)
      ∙ scan_step second third c (d ∷ bs) []
          (more_byte second c (omega (arith, more)) (omega arith) (omega arith))
      ∙ scan_step third between d bs _
          (last_byte third d (omega (arith, more)) (omega arith) (omega arith))
      ∙ ap (λ (m : ℕ). m ∷ scan between bs) whole

-- The bytes of one character.
scan_char :
    (c : Char) (bs : List ℕ) → scan between (point_bytes (code c) ++ bs) ≡ code c ∷ scan between bs
scan_char c bs = elim (code-Width c) [
  | inl (h, e) ↦ rw e (scan_one (code c) bs h)
  | inr (inl (h, k, e)) ↦ rw e (scan_two (code c) bs h k)
  | inr (inr (inl (h, k, scalar, e))) ↦ rw e (scan_three (code c) bs h k scalar)
  | inr (inr (inr (h, k, e))) ↦ rw e (scan_four (code c) bs h k)
]

-- The bytes of a text.
scan-as_bytes :
    (s : String) (bs : List ℕ) → scan between (as_bytes s ++ bs) ≡ codes s ++ scan between bs
unfolding as_bytes
scan-as_bytes String.[] bs = refl
scan-as_bytes (String.◌∷◌ c s) bs =
    ap (scan between) (append_assoc (point_bytes (code c)) (as_bytes s) bs)
    ∙ scan_char c (as_bytes s ++ bs)
    ∙ ap (λ (l : List ℕ). code c ∷ l) (scan-as_bytes s bs)

scan-replicate : (k : ℕ) → scan between (replicate k 0) ≡ replicate k 0
unfolding scan
scan-replicate zero = refl
scan-replicate (suc k) =
    scan_one 0 (replicate k 0) (omega arith) ∙ ap (λ (l : List ℕ). 0 ∷ l) (scan-replicate k)

text_of-codes : (s : String) → text_of (codes s) ≡ s
unfolding text_of
text_of-codes String.[] = refl
text_of-codes (String.◌∷◌ c s) =
    ap₂ (λ (d : Char) (t : String). String.◌∷◌ d t) (char_of-code c) (text_of-codes s)

-- The bytes of a text are read as that text.
pub from_utf8_lossy-as_bytes : (s : String) → from_utf8_lossy (as_bytes s) ≡ s
unfolding from_utf8_lossy scan
from_utf8_lossy-as_bytes s =
    ap (λ (l : List ℕ). text_of (scan between l)) (sym (append-nil (as_bytes s)))
    ∙ ap text_of (scan-as_bytes s [] ∙ append-nil (codes s))
    ∙ text_of-codes s

trim_zeros : (k : ℕ) → trim_end_nul (text_of (replicate k 0)) ≡ String.[]
unfolding trim_end_nul text_of char_of
trim_zeros zero = refl
trim_zeros (suc k) = rw (trim_zeros k) refl

trim_codes :
    (s : String) (k : ℕ) → trim_end_nul (text_of (codes s ++ replicate k 0)) ≡ trim_end_nul s
unfolding trim_end_nul text_of
trim_codes String.[] k = trim_zeros k
trim_codes (String.◌∷◌ c s) k =
    ap₂ (λ (d : Char) (t : String). cons_unless_end d t) (char_of-code c) (trim_codes s k)

-- Behind the bytes of a text any zeros are read as NULs, and trimmed away with those at its end.
pub trim_end_nul-from_utf8_lossy :
    (s : String) (k : ℕ)
    → trim_end_nul (from_utf8_lossy (as_bytes s ++ replicate k 0)) ≡ trim_end_nul s
unfolding from_utf8_lossy
trim_end_nul-from_utf8_lossy s k =
    ap (λ (l : List ℕ). trim_end_nul (text_of l))
      (scan-as_bytes s (replicate k 0) ∙ ap (◌++◌ (codes s)) (scan-replicate k))
    ∙ trim_codes s k
