-- ===== src/Strings/Steps.antt =====
-- The scan over the bytes of one character.
use Prim.Native.Char.{Char, code}
use easy_usb.Base.{
  ℕ, ◌+◌, ◌*◌, ◌/◌, ◌%◌, ◌-◌, ◌<◌, ◌≤◌, ◌≡◌, ◌⊎◌, inl, inr, refl, [], ◌∷◌, arith, ltb, ◌==◌,
  if◌then◌else◌, Bool-cases,
}
use easy_usb.Server.Utf8.{lead}
use easy_usb.Strings.Chars.{code_range}
use easy_usb.Strings.{Scan, between, first_byte, next_byte, scan_byte, lead_bits, point_bytes}

abbrev pub waiting : ℕ → ℕ → ℕ → ℕ → Scan
waiting n low high bits = record { due = record { more = n; low = low; high = high }; bits = bits }

-- A character of one byte.
pub ascii : (b : ℕ) → b < 0x80 → scan_byte between b ≡ (b ∷ [], between)
unfolding scan_byte first_byte lead
ascii b h = ground (arith, h)

-- The last byte that was due.
pub last_byte :
    (s : Scan) (b : ℕ)
    → s.due.more ≡ 1
    → s.due.low ≤ b
    → b ≤ s.due.high
    → scan_byte s b ≡ ((s.bits * 64 + b % 64) ∷ [], between)
unfolding scan_byte next_byte
last_byte s b e h k = ground (arith, e, h, k)

-- One with more behind it.
pub more_byte :
    (s : Scan) (b : ℕ)
    → 2 ≤ s.due.more
    → s.due.low ≤ b
    → b ≤ s.due.high
    → scan_byte s b ≡ ([], waiting (s.due.more - 1) 0x80 0xbf (s.bits * 64 + b % 64))
unfolding scan_byte next_byte
more_byte s b e h k = ground (arith, e, h, k)

-- The first of several bytes.
pub lead_byte :
    (b : ℕ)
    → 0xc2 ≤ b
    → b ≤ 0xf4
    → scan_byte between b ≡ ([], record { due = lead b; bits = lead_bits b })
unfolding scan_byte first_byte lead
lead_byte b h k = ground (arith, h, k)

pub lead_two :
    (b : ℕ)
    → 0xc2 ≤ b
    → b ≤ 0xdf
    → ((lead b).more ≡ 1) × ((lead b).low ≡ 0x80) × ((lead b).high ≡ 0xbf) × (lead_bits b ≡ b % 32)
unfolding lead lead_bits
lead_two b h k = ground (arith, h, k)

pub lead_three :
    (b : ℕ)
    → 0xe0 ≤ b
    → b ≤ 0xef
    → ((lead b).more ≡ 2)
      × ((lead b).low ≡ (if b == 0xe0 then 0xa0 else 0x80))
      × ((lead b).high ≡ (if b == 0xed then 0x9f else 0xbf))
      × (lead_bits b ≡ b % 16)
unfolding lead lead_bits
lead_three b h k = ground (arith, h, k)

pub lead_four :
    (b : ℕ)
    → 0xf0 ≤ b
    → b ≤ 0xf4
    → ((lead b).more ≡ 3)
      × ((lead b).low ≡ (if b == 0xf0 then 0x90 else 0x80))
      × ((lead b).high ≡ (if b == 0xf4 then 0x8f else 0xbf))
      × (lead_bits b ≡ b % 8)
unfolding lead lead_bits
lead_four b h k = ground (arith, h, k)

-- The four widths.
abbrev pub Width : ℕ → Type 0
Width n =
    ((n < 0x80) × (point_bytes n ≡ n ∷ []))
    ⊎ ((0x80 ≤ n) × (n < 0x800) × (point_bytes n ≡ (0xc0 + n / 64) ∷ (0x80 + n % 64) ∷ []))
    ⊎ ((0x800 ≤ n)
        × (n < 0x10000)
        × ((n < 0xd800) ⊎ (0xdfff < n))
        × (point_bytes n ≡ (0xe0 + n / 4096) ∷ (0x80 + n / 64 % 64) ∷ (0x80 + n % 64) ∷ []))
    ⊎ ((0x10000 ≤ n)
        × (n < 0x110000)
        × (point_bytes n
            ≡ (0xf0 + n / 262144)
              ∷ (0x80 + n / 4096 % 64)
              ∷ (0x80 + n / 64 % 64)
              ∷ (0x80 + n % 64)
              ∷ []))

pub code-Width : (c : Char) → Width (code c)
unfolding point_bytes
code-Width c = by (code c) (code_range c)
  where
    by : (n : ℕ) → (n < 0xd800) ⊎ ((0xdfff < n) × (n < 0x110000)) → Width n
    by n scalar = elim (Bool-cases (ltb n 0x80)) [
      | inl a ↦ inl (ground (arith, a), rw a refl)
      | inr a ↦ elim (Bool-cases (ltb n 0x800)) [
        | inl b ↦ inr (inl (ground (arith, a), ground (arith, b), rw (a, b) refl))
        | inr b ↦ elim (Bool-cases (ltb n 0x10000)) [
          | inl c ↦ inr (
              inr (
                inl (
                  ground (arith, b),
                  ground (arith, c),
                  ground (arith, scalar),
                  rw (a, b, c) refl,
                )))
          | inr c ↦ inr (inr (inr (ground (arith, c), ground (arith, scalar), rw (a, b, c) refl)))
        ]
      ]
    ]
