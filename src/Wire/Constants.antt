-- ===== src/Wire/Constants.antt =====
-- crates/easy-usb-core/src/protocol/constants.rs.
use easy_usb.Base.{ℕ}

abbrev pub usbip_version : ℕ
usbip_version = 0x0111

abbrev pub op_req_devlist : ℕ
op_req_devlist = 0x8005

abbrev pub op_rep_devlist : ℕ
op_rep_devlist = 0x0005

abbrev pub op_req_import : ℕ
op_req_import = 0x8003

abbrev pub op_rep_import : ℕ
op_rep_import = 0x0003

abbrev pub op_req_export : ℕ
op_req_export = 0x8006

abbrev pub op_rep_export : ℕ
op_rep_export = 0x0006

abbrev pub cmd_submit : ℕ
cmd_submit = 0x0001

abbrev pub ret_submit : ℕ
ret_submit = 0x0003

abbrev pub cmd_unlink : ℕ
cmd_unlink = 0x0002

abbrev pub ret_unlink : ℕ
ret_unlink = 0x0004

abbrev pub usbip_dir_out : ℕ
usbip_dir_out = 0x00

abbrev pub usbip_dir_in : ℕ
usbip_dir_in = 0x01

abbrev pub usbip_urb_short_not_ok : ℕ
usbip_urb_short_not_ok = 0x0001

abbrev pub usbip_urb_iso_asap : ℕ
usbip_urb_iso_asap = 0x0002

abbrev pub usbip_urb_no_transfer_dma_map : ℕ
usbip_urb_no_transfer_dma_map = 0x0004

abbrev pub usbip_urb_zero_packet : ℕ
usbip_urb_zero_packet = 0x0008

abbrev pub usbip_urb_no_interrupt : ℕ
usbip_urb_no_interrupt = 0x0010

abbrev pub usbip_urb_free_buffer : ℕ
usbip_urb_free_buffer = 0x0020

abbrev pub usbip_urb_dir_in : ℕ
usbip_urb_dir_in = 0x0040

abbrev pub usbip_urb_dir_out : ℕ
usbip_urb_dir_out = 0x0080
