-- ===== src/Codec/Import/Layout.antt =====
-- The bytes of OP_REQ_IMPORT and OP_REP_IMPORT, described apart from the code.
use easy_usb.Base.{ℕ, ◌≡◌, List, [], ◌∷◌, ◌++◌, length, All, get_or}
use easy_usb.Bytes.Words.{IsByte, IsU16, IsU32, be32, be16, u32_of, u16_of}
use easy_usb.Codec.Import.{bytes_at}
use easy_usb.Wire.{OpReqImport, OpRepImport}

-- The fields within their types, and the arrays of their lengths.
pub record ReqIsValid (req : OpReqImport) : Type 0 where
  pub status : IsU32 req.status
  pub path_length : length req.path ≡ 256
  pub path_bytes : All IsByte req.path
  pub busid_length : length req.busid ≡ 32
  pub busid_bytes : All IsByte req.busid

pub record RepIsValid (rep : OpRepImport) : Type 0 where
  pub status : IsU32 rep.status
  pub path_length : length rep.path ≡ 256
  pub path_bytes : All IsByte rep.path
  pub busid_length : length rep.busid ≡ 32
  pub busid_bytes : All IsByte rep.busid
  pub busnum : IsU32 rep.busnum
  pub devnum : IsU32 rep.devnum
  pub speed : IsU32 rep.speed
  pub id_vendor : IsU16 rep.id_vendor
  pub id_product : IsU16 rep.id_product
  pub bcd_device : IsU16 rep.bcd_device
  pub b_device_class : IsByte rep.b_device_class
  pub b_device_sub_class : IsByte rep.b_device_sub_class
  pub b_device_protocol : IsByte rep.b_device_protocol
  pub b_configuration_value : IsByte rep.b_configuration_value
  pub b_num_configurations : IsByte rep.b_num_configurations
  pub b_num_interfaces : IsByte rep.b_num_interfaces

-- The status, the path and the bus id stand in front of both messages.
abbrev pub front_bytes : ℕ → (path busid : List ℕ) → List ℕ
front_bytes status path busid = be32 status ++ (path ++ busid)

unfoldable pub req_bytes : OpReqImport → List ℕ
req_bytes req = front_bytes req.status req.path req.busid

-- The 24 bytes behind the front of a reply.
unfoldable pub device_bytes : OpRepImport → List ℕ
device_bytes rep =
    be32 rep.busnum
    ++ (be32 rep.devnum
        ++ (be32 rep.speed
            ++ (be16 rep.id_vendor
                ++ (be16 rep.id_product
                    ++ (be16 rep.bcd_device
                        ++ (rep.b_device_class ∷ rep.b_device_sub_class ∷ rep.b_device_protocol
                            ∷ rep.b_configuration_value ∷ rep.b_num_configurations
                            ∷ rep.b_num_interfaces ∷ []))))))

unfoldable pub rep_bytes : OpRepImport → List ℕ
unfolding device_bytes
rep_bytes rep = front_bytes rep.status rep.path rep.busid ++ device_bytes rep

-- What a slice of at least 292, or 316, bytes spells.
unfoldable pub req_of : List ℕ → OpReqImport
req_of buf = record {
  status = u32_of (bytes_at 0 4 buf);
  path = bytes_at 4 256 buf;
  busid = bytes_at 260 32 buf;
}

unfoldable pub rep_of : List ℕ → OpRepImport
rep_of buf = record {
  status = u32_of (bytes_at 0 4 buf);
  path = bytes_at 4 256 buf;
  busid = bytes_at 260 32 buf;
  busnum = u32_of (bytes_at 292 4 buf);
  devnum = u32_of (bytes_at 296 4 buf);
  speed = u32_of (bytes_at 300 4 buf);
  id_vendor = u16_of (bytes_at 304 2 buf);
  id_product = u16_of (bytes_at 306 2 buf);
  bcd_device = u16_of (bytes_at 308 2 buf);
  b_device_class = get_or buf 310 0;
  b_device_sub_class = get_or buf 311 0;
  b_device_protocol = get_or buf 312 0;
  b_configuration_value = get_or buf 313 0;
  b_num_configurations = get_or buf 314 0;
  b_num_interfaces = get_or buf 315 0;
}
