-- ===== src/PlainTcp.antt =====
-- A plain implementation of `Tcp`: a peer that has sent its bytes and reads all that is written. Its
-- laws can be met, and tests run on it.
use easy_usb.Base.{
  ℕ, ◌≤◌, ◌≡◌, refl, List, [], ◌∷◌, ◌++◌, Result, ok, err, Text, lit, length, take, drop, ltb, All,
  arith, if◌then◌else◌, le→ltb_false, take-append-drop, length-take, All-drop,
}
use easy_usb.Bytes.Words.{IsByte}
use easy_usb.Net.{Tcp}

pub record Pipe : Type 0 where
  pub unread : List ℕ
  pub unread_bytes : All IsByte unread
  pub sent : List ℕ

abbrev pub pipe_read : ℕ → Pipe → Pipe × Result Text (List ℕ)
pipe_read n s = if ltb (length s.unread) n then (s, err (lit "early eof" ∷ [])) else (
  record {
    unread = drop n s.unread;
    unread_bytes = All-drop IsByte n s.unread s.unread_bytes;
    sent = s.sent;
  },
  ok (take n s.unread),
)

abbrev pub pipe_write : List ℕ → Pipe → Pipe × Result Text (Unit {0})
pipe_write bs s =
    (record { unread = s.unread; unread_bytes = s.unread_bytes; sent = s.sent ++ bs }, ok tt)

pub pipe_read-ok :
    (n : ℕ) (s : Pipe) (bs : List ℕ)
    → (pipe_read n s).1 ≡ ok bs
    → (length bs ≡ n) × (s.unread ≡ bs ++ (pipe_read n s).0.unread)
pipe_read-ok n s bs e = ground (arith, e, take-append-drop n s.unread, length-take n s.unread)

pub pipe_read-sent : (n : ℕ) (s : Pipe) → (pipe_read n s).0.sent ≡ s.sent
pipe_read-sent n s = ground arith

pub pipe_read-enough :
    (n : ℕ) (s : Pipe)
    → n ≤ length s.unread
    → ((bs : List ℕ) × ((pipe_read n s).1 ≡ ok bs)) × Unit {0}
pipe_read-enough n s h = ((take n s.unread, rw (le→ltb_false (length s.unread) n h) refl), tt)

abbrev pub plain_tcp : Tcp
plain_tcp = record {
  Stream = Pipe;
  read_exact = pipe_read;
  write_all = pipe_write;
  shutdown = λ s. s;
  incoming = λ s. s.unread;
  written = λ s. s.sent;
  IsUp = λ _. Unit {0};
  incoming-IsByte = λ s. s.unread_bytes;
  read_exact-ok = pipe_read-ok;
  read_exact-written = pipe_read-sent;
  read_exact-IsUp = λ n s _ h. pipe_read-enough n s h;
  shutdown-written = λ s. refl;
  write_all-ok = λ bs s _. refl;
  write_all-incoming = λ bs s. refl;
  write_all-IsUp = λ bs s _. (refl, tt);
}
