-- ===== src/Exchange/Pipeline/Received.antt =====
-- A loop of `recv_header` on an open session is the loop on its stream.
use easy_usb.Base.{ℕ, zero, suc, ◌≡◌, refl, false, ◌∷◌, List, Result, ok, err}
use easy_usb.Bytes.{ByteIo}
use easy_usb.Codec.{ProtocolError}
use easy_usb.Net.{Tcp, proceed, ◌>>=◌, done}
use easy_usb.Net.Loops.{repeat_io}
use easy_usb.Session.{TcpSession, on_stream, recv_header, recv_header_inner}
use easy_usb.Server.Contract.{Urb}

module _ ⦃io : ByteIo⦄ (tcp : Tcp) where
  open tcp use {Stream}

  abbrev at_stream :
      {A : Type 0}
      → TcpSession tcp
      → Stream × Result ProtocolError A
      → TcpSession tcp × Result ProtocolError A
  at_stream session (s, r) = (record session { stream = s }, r)

  -- On a session that is open, `recv_header` is `recv_header_inner` on its stream, and so is a loop of it.
  recv_header-on_stream :
      (session : TcpSession tcp)
      → session.closed ≡ false
      → recv_header tcp session ≡ on_stream tcp (recv_header_inner tcp) session
  unfolding recv_header
  recv_header-on_stream session opened = rw opened refl

  pub repeat_recv-on_stream :
      (n : ℕ) (session : TcpSession tcp)
      → session.closed ≡ false
      → repeat_io n (recv_header tcp) session
        ≡ on_stream tcp (repeat_io n (recv_header_inner tcp)) session
  repeat_recv-on_stream zero session opened = refl
  repeat_recv-on_stream (suc n) session opened = rw (recv_header-on_stream session opened) (
      go (λ s. repeat_recv-on_stream n (record session { stream = s }) opened)
        (recv_header_inner tcp session.stream))
    where
      again :
          (o : Stream × Result ProtocolError (List Urb)) (a : Urb)
          → proceed (at_stream session o) (λ rest. done (a ∷ rest))
            ≡ at_stream session (proceed o (λ rest. done (a ∷ rest)))
      again (s, ok r) a = refl
      again (s, err e) a = refl

      go :
          ((s : Stream)
            → repeat_io n (recv_header tcp) (record session { stream = s })
              ≡ at_stream session (repeat_io n (recv_header_inner tcp) s))
          → (o : Stream × Result ProtocolError Urb)
          → proceed
              (at_stream session o)
              (λ a. repeat_io n (recv_header tcp) >>= λ rest. done (a ∷ rest))
            ≡ at_stream session
                (proceed o (λ a. repeat_io n (recv_header_inner tcp) >>= λ rest. done (a ∷ rest)))
      go later (s, ok a) = rw (later s) (again (repeat_io n (recv_header_inner tcp) s) a)
      go later (s, err e) = refl
