-- ===== src/Server/Utf8.antt =====
-- `core::str::from_utf8`, as far as crates/easy-usb-core/src/protocol/server.rs asks for it: whether
-- bytes are well-formed UTF-8 (RFC 3629).
pub mod Padding
use easy_usb.Base.{
  ℕ, ◌-◌, Option, none, some, Bool, false, ◌&&◌, List, [], ◌∷◌, ◌==◌, leb, ltb, if◌then◌else◌,
}

-- How many continuation bytes are due, and the range of the next.
pub record Due : Type 0 where
  pub more : ℕ
  pub low : ℕ
  pub high : ℕ

-- What a lead byte asks for; `more` is 4 where the byte cannot begin a character.
unfoldable pub lead : ℕ → Due
lead b =
    if ltb b 0x80
    then record { more = 0; low = 0x80; high = 0xbf }
    else if leb 0xc2 b && leb b 0xdf
    then record { more = 1; low = 0x80; high = 0xbf }
    else if b == 0xe0
    then record { more = 2; low = 0xa0; high = 0xbf }
    else if b == 0xed
    then record { more = 2; low = 0x80; high = 0x9f }
    else if leb 0xe1 b && leb b 0xef
    then record { more = 2; low = 0x80; high = 0xbf }
    else if b == 0xf0
    then record { more = 3; low = 0x90; high = 0xbf }
    else if leb 0xf1 b && leb b 0xf3
    then record { more = 3; low = 0x80; high = 0xbf }
    else if b == 0xf4
    then record { more = 3; low = 0x80; high = 0x8f }
    else record { more = 4; low = 0x80; high = 0xbf }

-- One byte: the state behind it, if the byte fits.
unfoldable pub advance : Due → ℕ → Option Due
unfolding lead
advance due b =
    if due.more == 0
    then (if ltb (lead b).more 4 then some (lead b) else none)
    else if leb due.low b && leb b due.high
    then some (record { more = due.more - 1; low = 0x80; high = 0xbf })
    else none

unfoldable pub utf8_from : Option Due → List ℕ → Bool
unfolding advance
utf8_from none bs = false
utf8_from (some due) [] = due.more == 0
utf8_from (some due) (b ∷ bs) = utf8_from (advance due b) bs

unfoldable pub is_utf8 : List ℕ → Bool
unfolding utf8_from
is_utf8 bs = utf8_from (some (record { more = 0; low = 0x80; high = 0xbf })) bs
