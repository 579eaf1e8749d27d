-- ===== src/Net.antt =====
-- The TCP connection that crates/easy-usb-core/src/protocol/{handshake,session,server}.rs read and
-- write through tokio, and `async` functions on it as functions from the stream to the stream and a
-- result.
pub mod Reads
pub mod Leaves
pub mod Takes
pub mod Silent
pub mod Loops
use easy_usb.Base.{
  ℕ, ◌≤◌, ◌≡◌, List, [], ◌∷◌, ◌++◌, Bool, true, false, Result, ok, err, map_err, Text, length, All,
}
use easy_usb.Bytes.Words.{IsByte}

-- What the code relies on of tokio's `TcpStream`. `incoming` is what the peer has sent or will send
-- and is not read yet, `written` what was written so far. Bytes arrive once and in order; an operation
-- may fail at any time, but not on a connection that is up, as far as the peer's bytes reach.
pub record Tcp : Type 1 where
  pub Stream : Type 0
  pub read_exact : ℕ → Stream → Stream × Result Text (List ℕ)
  pub write_all : List ℕ → Stream → Stream × Result Text (Unit {0})
  pub shutdown : Stream → Stream
  pub incoming : Stream → List ℕ
  pub written : Stream → List ℕ
  pub IsUp : Stream → Type 0
  pub incoming-IsByte : (s : Stream) → All IsByte (incoming s)
  pub read_exact-ok :
      (n : ℕ) (s : Stream) (bs : List ℕ)
      → (read_exact n s).1 ≡ ok bs
      → (length bs ≡ n) × (incoming s ≡ bs ++ incoming (read_exact n s).0)
  pub read_exact-written : (n : ℕ) (s : Stream) → written (read_exact n s).0 ≡ written s
  pub read_exact-IsUp :
      (n : ℕ) (s : Stream)
      → IsUp s
      → n ≤ length (incoming s)
      → ((bs : List ℕ) × ((read_exact n s).1 ≡ ok bs)) × IsUp (read_exact n s).0
  pub shutdown-written : (s : Stream) → written (shutdown s) ≡ written s
  pub write_all-ok :
      (bs : List ℕ) (s : Stream)
      → (write_all bs s).1 ≡ ok tt
      → written (write_all bs s).0 ≡ written s ++ bs
  pub write_all-incoming : (bs : List ℕ) (s : Stream) → incoming (write_all bs s).0 ≡ incoming s
  pub write_all-IsUp :
      (bs : List ℕ) (s : Stream) → IsUp s → ((write_all bs s).1 ≡ ok tt) × IsUp (write_all bs s).0

-- An `async fn` with a `&mut` state and a fallible result.
abbrev pub Io : (S E A : Type 0) → Type 0
Io S E A = S → S × Result E A

abbrev pub proceed : {S E A B : Type 0} → S × Result E A → (A → Io S E B) → S × Result E B
proceed (s, ok a) f = f a s
proceed (s, err e) f = (s, err e)

infixl 5 ◌>>=◌ ◌>>◌
abbrev pub ◌>>=◌ : {S E A B : Type 0} → Io S E A → (A → Io S E B) → Io S E B
◌>>=◌ m f s = proceed (m s) f

abbrev pub ◌>>◌ : {S E B : Type 0} → Io S E (Unit {0}) → Io S E B → Io S E B
◌>>◌ m k s = proceed (m s) (λ _. k)

abbrev pub done : {S E A : Type 0} → A → Io S E A
done a s = (s, ok a)

abbrev pub fail : {S E A : Type 0} → E → Io S E A
fail e s = (s, err e)

-- A result that touches no state, with `?`.
abbrev pub lift : {S E A : Type 0} → Result E A → Io S E A
lift r s = (s, r)

-- `map_err`, on what an operation returned.
abbrev pub map_io_err : {S E F A : Type 0} → (E → F) → Io S E A → Io S F A
map_io_err f m s = ((m s).0, map_err f (m s).1)

-- An early `return Err(e)` when the test holds.
abbrev pub fail_if_io : {S E : Type 0} → Bool → E → Io S E (Unit {0})
fail_if_io true e s = (s, err e)
fail_if_io false e s = (s, ok tt)
