-- ===== src/Exchange/LongBus.antt =====
-- A bus id of more than 32 bytes: crates/easy-usb-core/src/protocol/handshake.rs cuts it, and
-- protocol/server.rs judges what is left.
use easy_usb.Base.{
  ℕ, ◌-◌, ◌≤◌, ◌≡◌, refl, ap, ◌∙◌, false, List, [], ◌∷◌, ◌++◌, ok, err, lit, length, take,
  replicate, min, All, arith, append-nil, take_all, length-take,
}
use easy_usb.Bytes.{ByteIo}
use easy_usb.Bytes.Words.{IsByte}
use easy_usb.Codec.Import.Layout.{req_bytes}
use easy_usb.Net.{Tcp}
use easy_usb.Handshake.{busid_array, make_import_request}
use easy_usb.Server.{invalid_request, all_zero, read_request, accept_device, with_peer}
use easy_usb.Server.Utf8.{is_utf8}
use easy_usb.Server.Accepting.{verdict, accept_device-verdict, make_import_request-IsValid}

module _ (busid : List ℕ) (long : 32 ≤ length busid) where
  no_room : (bs : List ℕ) → 32 ≤ length bs → replicate {A = ℕ} (32 - min (length bs) 32) 0 ≡ []
  no_room bs h = let none_left : 32 - min (length bs) 32 ≡ 0 = omega arith in rw none_left refl

  busid_array-long : busid_array busid ≡ take 32 busid
  unfolding busid_array
  busid_array-long = rw (no_room busid long) (append-nil (take 32 busid))

  busid_array-cut : busid_array (take 32 busid) ≡ take 32 busid
  unfolding busid_array
  busid_array-cut =
      rw
        (
          take_all 32 (take 32 busid) (omega (arith, length-take 32 busid)),
          no_room (take 32 busid) (omega (arith, length-take 32 busid)),
        )
        (append-nil (take 32 busid))

  make_import_request-cut :
      (devid : ℕ) → make_import_request busid devid ≡ make_import_request (take 32 busid) devid
  unfolding make_import_request
  make_import_request-cut devid = rw (busid_array-long, busid_array-cut) refl

  verdict-long :
      (devid : ℕ)
      → all_zero (take 32 busid) ≡ false
      → is_utf8 (take 32 busid) ≡ false
      → verdict (make_import_request busid devid)
        ≡ err (invalid_request (lit "non-UTF-8 busid" ∷ []))
  unfolding make_import_request
  verdict-long devid named text = rw (busid_array-long, named, text) refl

module _ ⦃io : ByteIo⦄ (tcp : Tcp) where
  open tcp use {Stream, incoming, IsUp}

  -- For a bus id of at least 32 bytes the client asks for its first 32 bytes instead, and when these are
  -- not all zeros and end within a character, so that they are not UTF-8, the server refuses the request.
  pub accept_device-cut :
      (busid : List ℕ) (devid : ℕ) (rest : List ℕ) (server : Stream)
      → 32 ≤ length busid
      → All IsByte busid
      → all_zero (take 32 busid) ≡ false
      → is_utf8 (take 32 busid) ≡ false
      → IsUp server
      → incoming server ≡ req_bytes (make_import_request busid devid) ++ rest
      → (make_import_request busid devid ≡ make_import_request (take 32 busid) devid)
        × (accept_device tcp (ok server) ≡ err (invalid_request (lit "non-UTF-8 busid" ∷ [])))
  accept_device-cut busid devid rest server long bytes named text up arrives =
      let (judged, _, _, _) =
        accept_device-verdict tcp (make_import_request busid devid) rest server
          (make_import_request-IsValid busid devid bytes) up arrives in
      (
        make_import_request-cut busid long devid,
        judged
            ∙ ap (λ r. with_peer tcp ((read_request tcp server).0, r))
                (verdict-long busid long devid named text),
      )
