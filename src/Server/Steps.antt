-- ===== src/Server/Steps.antt =====
-- The steps that `serve_urb_echo` has made when it succeeds, whatever the peer sends.
use mathlib.Core.Path.{subst}
use easy_usb.Base.{ℕ, ◌≡◌, refl, sym, ap, ◌∙◌, List, ◌++◌, Option, Result, ok, err, length, ltb}
use easy_usb.Bytes.{ByteIo}
use easy_usb.Wire.Header.{UsbipHeader}
use easy_usb.Codec.{ProtocolError, io_error, buffer_too_large, max_payload_size}
use easy_usb.Codec.Header.{decode_header}
use easy_usb.Net.{Tcp, Io, proceed, ◌>>=◌, ◌>>◌, done, lift, map_io_err, fail_if_io}
use easy_usb.Net.Leaves.{payload_block}
use easy_usb.Net.Takes.{proceed-ok_inv, passed, Takes, Takes-then, read-Takes, payload_block-Takes}
use easy_usb.Server.{answer, echo_payload_len, read_echo_payload, serve_urb_echo}

module _ ⦃io : ByteIo⦄ (tcp : Tcp) where
  open tcp use {Stream, read_exact, incoming, written, incoming-IsByte}

  -- `serve_urb_echo` behind its reads.
  abbrev pub behind_reads : List ℕ → Io Stream ProtocolError UsbipHeader
  behind_reads full =
      lift (decode_header full) >>= λ (header, payload). answer tcp header payload >> done header

  done_after :
      (out : Stream × Result ProtocolError (Unit {0})) (g h : UsbipHeader)
      → (proceed out (λ _. done g)).1 ≡ ok h
      → (g ≡ h) × (out.1 ≡ ok tt) × ((proceed out (λ _. done g)).0 ≡ out.0)
  done_after (t, ok x) g h e = (cc e, refl, refl)
  done_after (t, err x) g h e = absurd (cc e)

  -- What is known of the answer to some decoded bytes.
  pub record Decodes (full : List ℕ) (t u : Stream) (h : UsbipHeader) (p : Option (List ℕ))
      : Type 0 where
    pub decoded : decode_header full ≡ ok (h, p)
    pub answered : (answer tcp h p t).1 ≡ ok tt
    pub last : u ≡ (answer tcp h p t).0

  Decodes-alike :
      (full full' : List ℕ) (t u u' : Stream) (h : UsbipHeader) (p : Option (List ℕ))
      → full ≡ full'
      → u' ≡ u
      → Decodes full t u h p
      → Decodes full' t u' h p
  Decodes-alike full full' t u u' h p e f d = rw (← e, f) d

  behind_reads-Decodes :
      (full : List ℕ) (t : Stream) (h : UsbipHeader)
      → (behind_reads full t).1 ≡ ok h
      → (p : Option (List ℕ)) × Decodes full t (behind_reads full t).0 h p
  behind_reads-Decodes full t h e =
      let ((g, q), got, next) =
        proceed-ok_inv (lift (decode_header full) t)
          (λ (header, payload). answer tcp header payload >> done header) h e in
      let (same, good, stays) = done_after (answer tcp g q t) g h (ap (λ o. o.1) (sym next) ∙ e) in
      let found : Decodes full t (behind_reads full t).0 g q = record {
        decoded = got;
        answered = good;
        last = ap (λ o. o.0) next ∙ stays;
      } in
      (q, subst (λ (x : UsbipHeader). Decodes full t (behind_reads full t).0 x q) same found)

  abbrev pub behind_header : List ℕ → Io Stream ProtocolError UsbipHeader
  behind_header buf =
      fail_if_io (ltb max_payload_size (echo_payload_len buf))
        (buffer_too_large (echo_payload_len buf) max_payload_size)
      >> (payload_block tcp io_error (echo_payload_len buf) buf >>= behind_reads)

  -- The bytes that were read, and what was made of them.
  pub record Runs (s u : Stream) (h : UsbipHeader) (buf more : List ℕ) (p : Option (List ℕ))
      (t : Stream) : Type 0 where
    pub due : length more ≡ echo_payload_len buf
    pub takes : Takes tcp s t (buf ++ more)
    pub decodes : Decodes (buf ++ more) t u h p

  behind_header-Runs :
      (buf : List ℕ) (s t : Stream) (h : UsbipHeader)
      → Takes tcp s t buf
      → (behind_header buf t).1 ≡ ok h
      → (more : List ℕ) × (p : Option (List ℕ)) × (v : Stream) × Runs s
          (behind_header buf t).0
          h
          buf
          more
          p
          v
  behind_header-Runs buf s t h first e =
      let n = echo_payload_len buf in
      let block = payload_block tcp io_error n buf in
      let (_, next) =
        passed (ltb max_payload_size n) (buffer_too_large n max_payload_size)
          (block >>= behind_reads) t h e in
      let (full, read, next2) =
        proceed-ok_inv (block t) behind_reads h (ap (λ o. o.1) (sym next) ∙ e) in
      let whole = next ∙ next2 in
      let (more, joined, length_more, second) =
        payload_block-Takes tcp io_error n buf full t read in
      let (p, found) = behind_reads-Decodes full (block t).0 h (ap (λ o. o.1) (sym whole) ∙ e) in
      (
        more,
        p,
        (block t).0,
        record {
          due = length_more;
          takes = Takes-then tcp s t (block t).0 buf more first second;
          decodes =
              Decodes-alike full (buf ++ more) (block t).0 _ _ h p joined (ap (λ o. o.0) whole)
                found;
        },
      )

  pub serve_urb_echo-Runs :
      (s : Stream) (h : UsbipHeader)
      → (serve_urb_echo tcp s).1 ≡ ok h
      → (buf : List ℕ) × (length buf ≡ 48)
        × ((more : List ℕ) × (p : Option (List ℕ)) × (v : Stream) × Runs s
              (serve_urb_echo tcp s).0
              h
              buf
              more
              p
              v)
  unfolding serve_urb_echo read_echo_payload
  serve_urb_echo-Runs s h e =
      let read = map_io_err io_error (read_exact 48) s in
      let (buf, got, next) = proceed-ok_inv read behind_header h e in
      let (size, first) = read-Takes tcp io_error 48 s buf got in
      let (more, p, v, runs) =
        behind_header-Runs buf s read.0 h first (ap (λ o. o.1) (sym next) ∙ e) in
      (
        buf,
        size,
        (
          more,
          p,
          v,
          record {
            due = runs.due;
            takes = runs.takes;
            decodes = Decodes-alike _ _ _ _ _ h p refl (ap (λ o. o.0) next) runs.decodes;
          },
        ),
      )
