-- ===== src/Exchange/Registering.antt =====
-- From the bus id that a user names to the registry's entry: an import
-- (crates/easy-usb-core/src/protocol/handshake.rs, server.rs), the device of its reply (protocol/device.rs,
-- port/types.rs), and the registry (engine/registry.rs).
use Prim.Native.String.{String}
use easy_usb.Base.{
  ℕ, ◌-◌, ◌≤◌, ◌≡◌, ◌≢◌, sym, ap, ◌∙◌, List, ◌++◌, none, some, ok, true, false, length, min,
  Bool-cases, inl, inr,
}
use easy_usb.Bytes.{ByteIo}
use easy_usb.Wire.{OpRepImport}
use easy_usb.Codec.Import.Layout.{RepIsValid}
use easy_usb.Net.{Tcp}
use easy_usb.Handshake.{connects, exchange, busid_array, make_import_request, import_device}
use easy_usb.Handshake.Retries.{IsUsable}
use easy_usb.Device.{descriptor_from}
use easy_usb.Port.{device_from}
use easy_usb.Strings.{as_bytes, trim_end_nul, from_utf8_lossy}
use easy_usb.Strings.Decoding.{trim_end_nul-from_utf8_lossy}
use easy_usb.Strings.Validity.{is_utf8-as_bytes, as_bytes-IsByte, all_zero-as_bytes}
use easy_usb.Registry.{SessionId, RegistrySnapshot, forwarded}
use easy_usb.Registry.MapLaws.{listed}
use easy_usb.Registry.Invariant.{IsConsistent}
use easy_usb.Registry.Forwarding.{
  forward_new, forward_new-IsConsistent, forward_new-devices, forward_new-listed,
}
use easy_usb.Server.{read_request, send_op_rep_import, accept_device, all_zero}
use easy_usb.Server.Accepting.{busid_array-short}
use easy_usb.Exchange.Import.{import_handshake}

-- A bus id: not empty, without a NUL at its end, and at most 32 bytes.
pub record IsBusId (t : String) : Type 0 where
  pub named : t ≢ String.[]
  pub trimmed : trim_end_nul t ≡ t
  pub short : length (as_bytes t) ≤ 32

module _ (t : String) (i : IsBusId t) where
  pub not_zero : all_zero (as_bytes t) ≡ false
  not_zero = elim (Bool-cases (all_zero (as_bytes t))) [
    | inl z ↦ absurd (i.named (sym i.trimmed ∙ all_zero-as_bytes t z))
    | inr z ↦ z
  ]

  -- The device of a reply that holds the bus id of the request has that bus id.
  busid-device_from :
      (rep : OpRepImport)
      → rep.busid ≡ busid_array (as_bytes t)
      → (device_from (descriptor_from rep)).busid ≡ t
  unfolding device_from descriptor_from
  busid-device_from rep e =
      ap (λ (l : List ℕ). trim_end_nul (from_utf8_lossy l))
        (e ∙ busid_array-short (as_bytes t) i.short)
      ∙ trim_end_nul-from_utf8_lossy t (32 - min (length (as_bytes t)) 32)
      ∙ i.trimmed

module _ ⦃io : ByteIo⦄ (tcp : Tcp) where
  open tcp use {Stream, written, incoming, IsUp}

  -- A client imports a device by a bus id that is a text without a NUL at its end, not empty, of at most
  -- 32 bytes, over a connection that is up at both ends; the server accepts, and answers with a valid
  -- reply that names a device and holds the bus id of the request. Then the import succeeds with that
  -- reply, the device made of it has just that text as its bus id, and when it is added to a
  -- consistent registry that does not know the bus, bound, and forwarded to a session, the registry is
  -- consistent, has the device under that text as forwarded, and lists it for the session.
  pub import_device-forward_new :
      (t : String) (devid : ℕ) (rep : OpRepImport) (client server : Stream) (sid : SessionId)
      (s : RegistrySnapshot)
      → IsBusId t
      → RepIsValid rep
      → IsUsable rep
      → rep.busid ≡ busid_array (as_bytes t)
      → IsUp client
      → IsUp server
      → IsConsistent s
      → s.devices t ≡ none
      → let req = make_import_request (as_bytes t) devid in
        let taken = (read_request tcp server).0 in
        written (exchange tcp req client).0 ≡ written client ++ incoming server
        → written (send_op_rep_import tcp rep taken).0 ≡ written taken ++ incoming client
        → let d = device_from (descriptor_from rep) in
          (accept_device tcp (ok server) ≡ ok (taken, req))
          × (import_device tcp (λ _. connects (ok client)) (as_bytes t) devid
              ≡ ok ((exchange tcp req client).0, rep))
          × (d.busid ≡ t)
          × IsConsistent (forward_new d t sid s)
          × ((forward_new d t sid s).devices t
              ≡ some (record { device = d; state = forwarded sid }))
          × (listed (forward_new d t sid s).forwardings sid t ≡ true)
  import_device-forward_new t devid rep client server sid s i v u holds up server_up consistent new
        there again =
      let d = device_from (descriptor_from rep) in
      let (accepted, _, imported, _, _) =
        import_handshake tcp (as_bytes t) devid rep client server (as_bytes-IsByte t) i.short
          (not_zero t i) (is_utf8-as_bytes t) v u up server_up there again in
      let same = busid-device_from t i rep holds in
      (
        accepted,
        imported,
        same,
        forward_new-IsConsistent d t sid s consistent,
        forward_new-devices d t sid s same new,
        forward_new-listed d t sid s consistent same new,
      )
