-- ===== src/Codec/Import.antt =====
-- crates/easy-usb-core/src/protocol/codec.rs: OP_REQ_IMPORT and OP_REP_IMPORT.
pub mod Layout
pub mod Fields
pub mod RoundTrip
pub mod Sound
use easy_usb.Base.{ℕ, List, [], Result, ok, ◌>>=◌, ◌>>◌, fail_if, ltb, length, take, drop, get_or}
use easy_usb.Bytes.{ByteIo}
use easy_usb.Wire.{OpReqImport, OpRepImport}
use easy_usb.Codec.{ProtocolError, incomplete_buffer}
use easy_usb.Codec.Fields.{or_unread}

-- `size_of::<OpReqImport>()` and `size_of::<OpRepImport>()`.
abbrev pub op_req_import_size : ℕ
op_req_import_size = 292

abbrev pub op_rep_import_size : ℕ
op_rep_import_size = 316

-- `&buf[offset..offset + n]`.
abbrev pub bytes_at : ℕ → ℕ → List ℕ → List ℕ
bytes_at offset n buf = take n (drop offset buf)

module _ ⦃io : ByteIo⦄ where
  open io use {put_u8, put_u16, put_u32, put_slice, read_u16, read_u32}

  unfoldable pub encode_op_req_import : OpReqImport → Result ProtocolError (List ℕ)
  encode_op_req_import req = do
    let b1 = put_u32 [] req.status
    let b2 = put_slice b1 req.path
    ok (put_slice b2 req.busid)

  unfoldable pub decode_op_req_import : List ℕ → Result ProtocolError OpReqImport
  decode_op_req_import buf = do
    fail_if (ltb (length buf) op_req_import_size)
        (incomplete_buffer op_req_import_size (length buf))
    (status, _) ← or_unread "failed to read status: " (read_u32 (bytes_at 0 4 buf))
    ok (record { status = status; path = bytes_at 4 256 buf; busid = bytes_at 260 32 buf })

  unfoldable pub encode_op_rep_import : OpRepImport → Result ProtocolError (List ℕ)
  encode_op_rep_import rep = do
    let b1 = put_u32 [] rep.status
    let b2 = put_slice b1 rep.path
    let b3 = put_slice b2 rep.busid
    let b4 = put_u32 b3 rep.busnum
    let b5 = put_u32 b4 rep.devnum
    let b6 = put_u32 b5 rep.speed
    let b7 = put_u16 b6 rep.id_vendor
    let b8 = put_u16 b7 rep.id_product
    let b9 = put_u16 b8 rep.bcd_device
    let b10 = put_u8 b9 rep.b_device_class
    let b11 = put_u8 b10 rep.b_device_sub_class
    let b12 = put_u8 b11 rep.b_device_protocol
    let b13 = put_u8 b12 rep.b_configuration_value
    let b14 = put_u8 b13 rep.b_num_configurations
    ok (put_u8 b14 rep.b_num_interfaces)

  unfoldable pub decode_op_rep_import : List ℕ → Result ProtocolError OpRepImport
  decode_op_rep_import buf = do
    fail_if (ltb (length buf) op_rep_import_size)
        (incomplete_buffer op_rep_import_size (length buf))
    (status, _) ← or_unread "failed to read status: " (read_u32 (bytes_at 0 4 buf))
    (busnum, _) ← or_unread "failed to read busnum: " (read_u32 (bytes_at 292 4 buf))
    (devnum, _) ← or_unread "failed to read devnum: " (read_u32 (bytes_at 296 4 buf))
    (speed, _) ← or_unread "failed to read speed: " (read_u32 (bytes_at 300 4 buf))
    (id_vendor, _) ← or_unread "failed to read id_vendor: " (read_u16 (bytes_at 304 2 buf))
    (id_product, _) ← or_unread "failed to read id_product: " (read_u16 (bytes_at 306 2 buf))
    (bcd_device, _) ← or_unread "failed to read bcd_device: " (read_u16 (bytes_at 308 2 buf))
    ok (record {
      status = status;
      path = bytes_at 4 256 buf;
      busid = bytes_at 260 32 buf;
      busnum = busnum;
      devnum = devnum;
      speed = speed;
      id_vendor = id_vendor;
      id_product = id_product;
      bcd_device = bcd_device;
      b_device_class = get_or buf 310 0;
      b_device_sub_class = get_or buf 311 0;
      b_device_protocol = get_or buf 312 0;
      b_configuration_value = get_or buf 313 0;
      b_num_configurations = get_or buf 314 0;
      b_num_interfaces = get_or buf 315 0;
    })
