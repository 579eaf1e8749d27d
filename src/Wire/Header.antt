-- ===== src/Wire/Header.antt =====
-- crates/easy-usb-core/src/protocol/wire.rs: `UsbipHeader`, its accessors and its equality, and
-- `CommandSpecific`.
use easy_usb.Base.{ℕ, Bool, true, Option, none, some, ◌==◌, ◌&&◌, replicate, if◌then◌else◌}
use easy_usb.Wire.{
  UsbipHeaderBasic, UsbipHeaderCmdSubmit, UsbipHeaderRetSubmit, UsbipHeaderCmdUnlink,
  UsbipHeaderRetUnlink,
}
use easy_usb.Wire.Constants.{cmd_submit, ret_submit, cmd_unlink, ret_unlink}
use easy_usb.Wire.Union.{
  UsbipHeaderUnion, as_cmd_submit, as_ret_submit, as_cmd_unlink, as_ret_unlink,
}

pub record UsbipHeader : Type 0 where
  pub base : UsbipHeaderBasic
  pub u : UsbipHeaderUnion

-- `UsbipHeader::cmd_submit` and the other accessors: the variant that the command names, if any.
unfoldable pub header_cmd_submit : UsbipHeader → Option UsbipHeaderCmdSubmit
header_cmd_submit h = if h.base.command == cmd_submit then some (as_cmd_submit h.u) else none

unfoldable pub header_ret_submit : UsbipHeader → Option UsbipHeaderRetSubmit
header_ret_submit h = if h.base.command == ret_submit then some (as_ret_submit h.u) else none

unfoldable pub header_cmd_unlink : UsbipHeader → Option UsbipHeaderCmdUnlink
header_cmd_unlink h = if h.base.command == cmd_unlink then some (as_cmd_unlink h.u) else none

unfoldable pub header_ret_unlink : UsbipHeader → Option UsbipHeaderRetUnlink
header_ret_unlink h = if h.base.command == ret_unlink then some (as_ret_unlink h.u) else none

unfoldable pub header_command : UsbipHeaderBasic → ℕ
header_command basic = basic.command

-- The derived `PartialEq` of `UsbipHeaderBasic`, that of the union, and that of `UsbipHeader`.
basic_eq : UsbipHeaderBasic → UsbipHeaderBasic → Bool
basic_eq a b =
    a.command == b.command
    && a.seqnum == b.seqnum
    && a.devid == b.devid
    && a.direction == b.direction
    && a.ep == b.ep

unfoldable pub union_eq : UsbipHeaderUnion → UsbipHeaderUnion → Bool
union_eq a b = true

unfoldable pub header_eq : UsbipHeader → UsbipHeader → Bool
unfolding basic_eq
header_eq a b = basic_eq a.base b.base

pub data CommandSpecific : Type 0 where
  cmd_submit_body : UsbipHeaderCmdSubmit → CommandSpecific
  ret_submit_body : UsbipHeaderRetSubmit → CommandSpecific
  cmd_unlink_body : UsbipHeaderCmdUnlink → CommandSpecific
  ret_unlink_body : UsbipHeaderRetUnlink → CommandSpecific

-- `CommandSpecific::from_command`.
unfoldable pub from_command : ℕ → Option CommandSpecific
from_command command =
    if command == cmd_submit
    then some (
        cmd_submit_body (record {
          transfer_flags = 0;
          transfer_buffer_length = 0;
          start_frame = 0;
          number_of_packets = 0;
          interval = 0;
          setup = replicate 8 0;
        }))
    else if command == ret_submit
    then some (
        ret_submit_body (record {
          status = 0;
          actual_length = 0;
          start_frame = 0;
          number_of_packets = 0;
          error_count = 0;
          setup = replicate 8 0;
        }))
    else if command == cmd_unlink
    then some (cmd_unlink_body (record { seqnum = 0; padding = replicate 6 0 }))
    else if command == ret_unlink
    then some (ret_unlink_body (record { status = 0; padding = replicate 6 0 }))
    else none
