-- ===== src/Net/Leaves.antt =====
-- What an operation leaves of a connection that is up.
use easy_usb.Base.{
  ℕ, ◌≡◌, refl, sym, ap, ◌∙◌, List, [], ◌++◌, Result, ok, Text, length, arith, append-nil,
  nil_of_length, inl, inr, ltb, Bool-cases, if◌then◌else◌,
}
use easy_usb.Net.{Tcp, Io, proceed, ◌>>=◌, done, map_io_err}
use easy_usb.Net.Reads.{append_cut, read_exact-Reads, proceed-ok}

-- What was written behind the same bytes is the same.
pub written_alike : (front xs ys zs : List ℕ) → zs ≡ front ++ xs → zs ≡ front ++ ys → xs ≡ ys
written_alike front xs ys zs e f = (append_cut front xs front ys (sym e ∙ f) refl).1

module _ (tcp : Tcp) where
  open tcp use {
    Stream, read_exact, read_exact-written, write_all, write_all-ok, write_all-IsUp,
    write_all-incoming, incoming, written, IsUp,
  }

  -- The outcome of an operation: its result, what is left to read, what was written so far, and the
  -- connection still up.
  pub record Leaves {E A : Type 0} (out : Stream × Result E A) (a : A) (rest sent : List ℕ)
      : Type 0 where
    pub result : out.1 ≡ ok a
    pub left : incoming out.0 ≡ rest
    pub wrote : written out.0 ≡ sent
    pub up : IsUp out.0

  pub Leaves-then :
      {E A B : Type 0} (p : Stream × Result E A) (f : A → Io Stream E B) (a : A) (b : B)
      (middle rest sent sent' : List ℕ)
      → Leaves p a middle sent
      → Leaves (f a p.0) b rest sent'
      → Leaves (proceed p f) b rest sent'
  Leaves-then p f a b middle rest sent sent' first second =
      rw (proceed-ok p f a first.result) second

  pub reads :
      {E : Type 0} (wrap : Text → E) (n : ℕ) (bytes rest : List ℕ) (s : Stream)
      → IsUp s
      → incoming s ≡ bytes ++ rest
      → length bytes ≡ n
      → Leaves (map_io_err wrap (read_exact n) s) bytes rest (written s)
  reads wrap n bytes rest s up e len =
      let r = read_exact-Reads tcp n s bytes rest up e len in
      record {
        result = rw (r.result) refl;
        left = r.left;
        wrote = read_exact-written n s;
        up = r.up;
      }

  pub writes :
      {E : Type 0} (wrap : Text → E) (bytes rest : List ℕ) (s : Stream)
      → IsUp s
      → incoming s ≡ rest
      → Leaves (map_io_err wrap (write_all bytes) s) tt rest (written s ++ bytes)
  writes wrap bytes rest s up e =
      let (sent, still) = write_all-IsUp bytes s up in
      record {
        result = rw sent refl;
        left = write_all-incoming bytes s ∙ e;
        wrote = write_all-ok bytes s sent;
        up = still;
      }

  -- The block that reads a payload, if one is due, behind the header's bytes.
  abbrev pub payload_block : {E : Type 0} → (Text → E) → ℕ → List ℕ → Io Stream E (List ℕ)
  payload_block wrap n buf =
      if ltb 0 n
      then (map_io_err wrap (read_exact n) >>= λ payload. done (buf ++ payload))
      else done buf

  pub payload_block-Leaves :
      {E : Type 0} (wrap : Text → E) (n : ℕ) (buf payload rest : List ℕ) (s : Stream)
      → IsUp s
      → incoming s ≡ payload ++ rest
      → length payload ≡ n
      → Leaves (payload_block wrap n buf s) (buf ++ payload) rest (written s)
  payload_block-Leaves wrap n buf payload rest s up e len = elim (Bool-cases (ltb 0 n)) [
    | inl some_bytes ↦
        let r = reads wrap n payload rest s up e len in
        rw some_bytes (
          Leaves-then _ _ payload (buf ++ payload) rest rest (written s) (written s) r
            (record { result = refl; left = r.left; wrote = r.wrote; up = r.up }))
    | inr no_bytes ↦
        let empty : payload ≡ [] = nil_of_length payload (ground (arith, len, no_bytes)) in
        rw no_bytes (record {
          result = rw empty (ap ok (sym (append-nil buf)));
          left = e ∙ rw empty refl;
          wrote = refl;
          up = up;
        })
  ]
