-- ===== src/Codec/Fields.antt =====
-- crates/easy-usb-core/src/protocol/codec.rs: the encoders and decoders of the fixed parts of a
-- header. An encoder takes the buffer that it appends to last and returns it.
use easy_usb.Base.{
  ℕ, zero, suc, Bool, not, ◌&&◌, List, [], ◌∷◌, Result, ok, ◌>>=◌, ◌>>◌, map_err, fail_if, lit, dec,
  Text, String, ◌==◌, ltb, length, take,
}
use easy_usb.Bytes.{ByteIo}
use easy_usb.Wire.{
  UsbipHeaderBasic, UsbipHeaderCmdSubmit, UsbipHeaderRetSubmit, UsbipHeaderCmdUnlink,
  UsbipHeaderRetUnlink,
}
use easy_usb.Wire.Constants.{usbip_dir_out, usbip_dir_in}
use easy_usb.Codec.{
  ProtocolError, incomplete_buffer, isochronous_not_supported, encoding_error, basic_header_size,
  cmd_header_size,
}

-- `map_err(|e| ProtocolError::EncodingError(format!("failed to read …: {e}")))`.
abbrev pub or_unread : {A : Type 0} → String → Result Text A → Result ProtocolError A
or_unread field = map_err (λ e. encoding_error (lit field ∷ e))

abbrev pub is_bad_direction : ℕ → Bool
is_bad_direction d = not (d == usbip_dir_out) && not (d == usbip_dir_in)

abbrev pub bad_direction : ℕ → ProtocolError
bad_direction d = encoding_error (lit "invalid direction value: " ∷ dec d ∷ [])

module _ ⦃io : ByteIo⦄ where
  open io use {put_u32, put_i32, put_slice, read_u32, read_i32}

  unfoldable pub encode_basic : UsbipHeaderBasic → List ℕ → Result ProtocolError (List ℕ)
  encode_basic basic buf = do
    fail_if (is_bad_direction basic.direction) (bad_direction basic.direction)
    let b1 = put_u32 buf basic.command
    let b2 = put_u32 b1 basic.seqnum
    let b3 = put_u32 b2 basic.devid
    let b4 = put_u32 b3 basic.direction
    ok (put_u32 b4 basic.ep)

  unfoldable pub decode_basic : List ℕ → Result ProtocolError UsbipHeaderBasic
  decode_basic buf = do
    fail_if (ltb (length buf) basic_header_size) (incomplete_buffer basic_header_size (length buf))
    (command, s1) ← or_unread "failed to read command: " (read_u32 (take basic_header_size buf))
    (seqnum, s2) ← or_unread "failed to read seqnum: " (read_u32 s1)
    (devid, s3) ← or_unread "failed to read devid: " (read_u32 s2)
    (direction, s4) ← or_unread "failed to read direction: " (read_u32 s3)
    (ep, s5) ← or_unread "failed to read ep: " (read_u32 s4)
    fail_if (is_bad_direction direction) (bad_direction direction)
    ok (record {
      command = command;
      seqnum = seqnum;
      devid = devid;
      direction = direction;
      ep = ep;
    })

  unfoldable pub encode_cmd_submit : UsbipHeaderCmdSubmit → List ℕ → Result ProtocolError (List ℕ)
  encode_cmd_submit cmd buf = do
    fail_if (not (cmd.number_of_packets == 0)) isochronous_not_supported
    let b1 = put_u32 buf cmd.transfer_flags
    let b2 = put_i32 b1 cmd.transfer_buffer_length
    let b3 = put_i32 b2 cmd.start_frame
    let b4 = put_i32 b3 cmd.number_of_packets
    let b5 = put_i32 b4 cmd.interval
    ok (put_slice b5 cmd.setup)

  unfoldable pub decode_cmd_submit : List ℕ → Result ProtocolError UsbipHeaderCmdSubmit
  decode_cmd_submit buf = do
    fail_if (ltb (length buf) cmd_header_size) (incomplete_buffer cmd_header_size (length buf))
    (transfer_flags, s1) ←
        or_unread "failed to read transfer_flags: " (read_u32 (take cmd_header_size buf))
    (transfer_buffer_length, s2) ← or_unread "failed to read transfer_buffer_length: " (read_i32 s1)
    (start_frame, s3) ← or_unread "failed to read start_frame: " (read_i32 s2)
    (number_of_packets, s4) ← or_unread "failed to read number_of_packets: " (read_i32 s3)
    (interval, s5) ← or_unread "failed to read interval: " (read_i32 s4)
    ok (record {
      transfer_flags = transfer_flags;
      transfer_buffer_length = transfer_buffer_length;
      start_frame = start_frame;
      number_of_packets = number_of_packets;
      interval = interval;
      setup = take 8 s5;
    })

  unfoldable pub encode_ret_submit : UsbipHeaderRetSubmit → List ℕ → Result ProtocolError (List ℕ)
  encode_ret_submit ret buf = do
    fail_if (not (ret.number_of_packets == 0)) isochronous_not_supported
    let b1 = put_i32 buf ret.status
    let b2 = put_i32 b1 ret.actual_length
    let b3 = put_i32 b2 ret.start_frame
    let b4 = put_i32 b3 ret.number_of_packets
    let b5 = put_i32 b4 ret.error_count
    ok (put_slice b5 ret.setup)

  unfoldable pub decode_ret_submit : List ℕ → Result ProtocolError UsbipHeaderRetSubmit
  decode_ret_submit buf = do
    fail_if (ltb (length buf) cmd_header_size) (incomplete_buffer cmd_header_size (length buf))
    (status, s1) ← or_unread "failed to read status: " (read_i32 (take cmd_header_size buf))
    (actual_length, s2) ← or_unread "failed to read actual_length: " (read_i32 s1)
    (start_frame, s3) ← or_unread "failed to read start_frame: " (read_i32 s2)
    (number_of_packets, s4) ← or_unread "failed to read number_of_packets: " (read_i32 s3)
    (error_count, s5) ← or_unread "failed to read error_count: " (read_i32 s4)
    ok (record {
      status = status;
      actual_length = actual_length;
      start_frame = start_frame;
      number_of_packets = number_of_packets;
      error_count = error_count;
      setup = take 8 s5;
    })

  -- `for i in 0..6 { buf.put_u32(padding[i]) }`.
  unfoldable pub put_words : List ℕ → List ℕ → List ℕ
  put_words [] buf = buf
  put_words (w ∷ ws) buf = put_words ws (put_u32 buf w)

  -- `for word in &mut padding { *word = slice.read_u32()… }`, with the number of words left.
  unfoldable pub read_words : ℕ → List ℕ → Result ProtocolError (List ℕ)
  read_words zero slice = ok []
  read_words (suc n) slice = do
    (w, rest) ← or_unread "failed to read padding: " (read_u32 slice)
    ws ← read_words n rest
    ok (w ∷ ws)

  unfoldable pub encode_cmd_unlink : UsbipHeaderCmdUnlink → List ℕ → Result ProtocolError (List ℕ)
  unfolding put_words
  encode_cmd_unlink cmd buf = ok (put_words cmd.padding (put_u32 buf cmd.seqnum))

  unfoldable pub decode_cmd_unlink : List ℕ → Result ProtocolError UsbipHeaderCmdUnlink
  unfolding read_words
  decode_cmd_unlink buf = do
    fail_if (ltb (length buf) cmd_header_size) (incomplete_buffer cmd_header_size (length buf))
    (seqnum, s1) ← or_unread "failed to read seqnum: " (read_u32 (take cmd_header_size buf))
    padding ← read_words 6 s1
    ok (record { seqnum = seqnum; padding = padding })

  unfoldable pub encode_ret_unlink : UsbipHeaderRetUnlink → List ℕ → Result ProtocolError (List ℕ)
  unfolding put_words
  encode_ret_unlink ret buf = ok (put_words ret.padding (put_i32 buf ret.status))

  unfoldable pub decode_ret_unlink : List ℕ → Result ProtocolError UsbipHeaderRetUnlink
  unfolding read_words
  decode_ret_unlink buf = do
    fail_if (ltb (length buf) cmd_header_size) (incomplete_buffer cmd_header_size (length buf))
    (status, s1) ← or_unread "failed to read status: " (read_i32 (take cmd_header_size buf))
    padding ← read_words 6 s1
    ok (record { status = status; padding = padding })
