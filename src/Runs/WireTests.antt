-- ===== src/Runs/WireTests.antt =====
-- Tests of crates/easy-usb-core/src/protocol/wire.rs on the model.
use easy_usb.Base.{ℕ, ◌≡◌, refl, Bool, true, false, not, ◌&&◌, Option, none, some, replicate, ◌==◌}
use easy_usb.Wire.Constants.{
  usbip_version, op_req_import, op_rep_import, cmd_submit, cmd_unlink, ret_submit, ret_unlink,
  usbip_dir_in,
}
use easy_usb.Wire.Union.{of_cmd_submit}
use easy_usb.Wire.Header.{
  UsbipHeader, header_cmd_submit, header_ret_submit, header_cmd_unlink, header_ret_unlink,
}

abbrev is_some : {A : Type 0} → Option A → Bool
is_some none = false
is_some (some a) = true

abbrev constants_match_opcodes : Bool
constants_match_opcodes =
    (usbip_version == 0x0111)
    && (op_req_import == 0x8003)
    && (op_rep_import == 0x0003)
    && (cmd_submit == 1)
    && (cmd_unlink == 2)
    && (ret_submit == 3)
    && (ret_unlink == 4)

constants_match_opcodes_passes : constants_match_opcodes ≡ true
constants_match_opcodes_passes = refl

-- A header of a command, its variant zeroed.
abbrev zeroed : (command direction ep : ℕ) → UsbipHeader
zeroed command direction ep = record {
  base = record { command = command; seqnum = 0; devid = 0; direction = direction; ep = ep };
  u = of_cmd_submit (record {
    transfer_flags = 0;
    transfer_buffer_length = 0;
    start_frame = 0;
    number_of_packets = 0;
    interval = 0;
    setup = replicate 8 0;
  });
}

abbrev safe_accessors_return_none_for_wrong_command : Bool
safe_accessors_return_none_for_wrong_command =
    let header = zeroed cmd_submit usbip_dir_in 0x81 in
    is_some (header_cmd_submit header)
    && not (is_some (header_ret_submit header))
    && not (is_some (header_cmd_unlink header))
    && not (is_some (header_ret_unlink header))

safe_accessors_return_none_for_wrong_command_passes :
    safe_accessors_return_none_for_wrong_command ≡ true
unfolding header_cmd_submit header_ret_submit header_cmd_unlink header_ret_unlink
safe_accessors_return_none_for_wrong_command_passes = refl

abbrev safe_accessor_matches_all_commands : Bool
safe_accessor_matches_all_commands =
    is_some (header_cmd_submit (zeroed cmd_submit 0 0))
    && is_some (header_ret_submit (zeroed ret_submit 0 0))
    && is_some (header_cmd_unlink (zeroed cmd_unlink 0 0))
    && is_some (header_ret_unlink (zeroed ret_unlink 0 0))

safe_accessor_matches_all_commands_passes : safe_accessor_matches_all_commands ≡ true
unfolding header_cmd_submit header_ret_submit header_cmd_unlink header_ret_unlink
safe_accessor_matches_all_commands_passes = refl
