-- ===== src/Server/Utf8/Padding.antt =====
-- Zeros behind well-formed UTF-8.
use easy_usb.Base.{
  ℕ, zero, suc, ◌≡◌, refl, ap, ◌∙◌, true, Option, none, some, List, [], ◌∷◌, ◌++◌, replicate, arith,
}
use easy_usb.Server.Utf8.{Due, lead, advance, utf8_from, is_utf8}

advance_zero : (due : Due) → due.more ≡ 0 → advance due 0 ≡ some (lead 0)
unfolding advance
advance_zero due e = ground (arith, e)

lead_zero : (lead 0).more ≡ 0
unfolding lead
lead_zero = refl

-- Where no byte is due, any number of zeros may follow.
utf8_from-replicate :
    (due : Due) (k : ℕ) → due.more ≡ 0 → utf8_from (some due) (replicate k 0) ≡ true
unfolding utf8_from
utf8_from-replicate due zero e = ground (arith, e)
utf8_from-replicate due (suc k) e =
    ap (λ (o : Option Due). utf8_from o (replicate k 0)) (advance_zero due e)
    ∙ utf8_from-replicate (lead 0) k lead_zero

utf8_from-append :
    (bs : List ℕ) (o : Option Due) (k : ℕ)
    → utf8_from o bs ≡ true
    → utf8_from o (bs ++ replicate k 0) ≡ true
unfolding utf8_from
utf8_from-append [] none k h = cc
utf8_from-append (b ∷ bs) none k h = cc
utf8_from-append [] (some due) k h = utf8_from-replicate due k (ground (arith, h))
utf8_from-append (b ∷ bs) (some due) k h = utf8_from-append bs (advance due b) k h

-- Well-formed bytes stay so with zeros behind them.
pub is_utf8-append :
    (bs : List ℕ) (k : ℕ) → is_utf8 bs ≡ true → is_utf8 (bs ++ replicate k 0) ≡ true
unfolding is_utf8
is_utf8-append bs k h =
    utf8_from-append bs (some (record { more = 0; low = 0x80; high = 0xbf })) k h
