-- ===== src/Runs/DisconnectTests.antt =====
-- Tests of crates/easy-usb-core/src/engine/registry.rs on the model: devices that go, requests that are
-- rejected, and the end of the task.
use easy_usb.Base.{
  ℕ, zero, suc, ◌≡◌, refl, Bool, true, false, not, ◌&&◌, [], ◌∷◌, ◌==◌, length, Result, ok, err,
}
use easy_usb.Registry.{
  idle, bound, forwarded, disconnected, RegistrySnapshot, RegistryCommand, add_device,
  remove_device,
}
use easy_usb.Registry.Maps.{contains, attach, release, drop_bus, retain_others, keep_list, push_new}
use easy_usb.Registry.Commands.{handle_command, is_valid_transition}
use easy_usb.Registry.System.{
  System, channel_closed, RegistryError, handle_send, new, snapshot, with_capacity, command_round,
  on_command, signal, stop,
}
use easy_usb.Runs.Fixtures.{make_device}
use easy_usb.Runs.Stages.{
  tokio, passes, contains_key, some_and, none_or, adds, moves, moves_and, stays, plug_1_1,
}

-- `matches!(result, Err(RegistryError::ChannelClosed))`.
abbrev is_closed_error : Result RegistryError (Unit {0}) → Bool
is_closed_error (ok _) = false
is_closed_error (err channel_closed) = true

abbrev remove_forwarded_device_cleans_forwardings : Bool
remove_forwarded_device_cleans_forwardings = passes (
    plug_1_1
    ∷ moves "1-1" bound
    ∷ moves "1-1" (forwarded "s1")
    ∷ (record {
      command = remove_device "1-1";
      expected = λ (s : RegistrySnapshot).
          not (contains_key "1-1" s)
          && none_or (λ buses. not (contains buses "1-1")) (s.forwardings "s1");
    })
    ∷ [])

remove_forwarded_device_cleans_forwardings_passes :
    remove_forwarded_device_cleans_forwardings ≡ true
unfolding passes new with_capacity handle_send snapshot command_round on_command handle_command
    is_valid_transition attach release drop_bus retain_others keep_list push_new contains stop
    signal
remove_forwarded_device_cleans_forwardings_passes = refl

abbrev transition_idle_to_disconnected : Bool
transition_idle_to_disconnected = passes (plug_1_1 ∷ moves "1-1" disconnected ∷ [])

transition_idle_to_disconnected_passes : transition_idle_to_disconnected ≡ true
unfolding passes new with_capacity handle_send snapshot command_round on_command handle_command
    is_valid_transition attach release drop_bus retain_others keep_list push_new contains stop
    signal
transition_idle_to_disconnected_passes = refl

abbrev transition_bound_to_disconnected : Bool
transition_bound_to_disconnected =
    passes (plug_1_1 ∷ moves "1-1" bound ∷ moves "1-1" disconnected ∷ [])

transition_bound_to_disconnected_passes : transition_bound_to_disconnected ≡ true
unfolding passes new with_capacity handle_send snapshot command_round on_command handle_command
    is_valid_transition attach release drop_bus retain_others keep_list push_new contains stop
    signal
transition_bound_to_disconnected_passes = refl

abbrev disconnected_is_terminal : Bool
disconnected_is_terminal =
    passes (plug_1_1 ∷ moves "1-1" disconnected ∷ stays "1-1" idle disconnected ∷ [])

disconnected_is_terminal_passes : disconnected_is_terminal ≡ true
unfolding passes new with_capacity handle_send snapshot command_round on_command handle_command
    is_valid_transition attach release drop_bus retain_others keep_list push_new contains stop
    signal
disconnected_is_terminal_passes = refl

abbrev multiple_devices_same_session_partial_disconnect : Bool
multiple_devices_same_session_partial_disconnect = passes (
    adds "1-1" 0x1111 0x1111
    ∷ moves "1-1" bound
    ∷ moves "1-1" (forwarded "s1")
    ∷ adds "2-2" 0x2222 0x2222
    ∷ moves "2-2" bound
    ∷ moves "2-2" (forwarded "s1")
    ∷ moves_and "1-1" disconnected
        (λ s. some_and (λ buses. (length buses == 1) && contains buses "2-2") (s.forwardings "s1"))
    ∷ [])

multiple_devices_same_session_partial_disconnect_passes :
    multiple_devices_same_session_partial_disconnect ≡ true
unfolding passes new with_capacity handle_send snapshot command_round on_command handle_command
    is_valid_transition attach release drop_bus retain_others keep_list push_new contains stop
    signal
multiple_devices_same_session_partial_disconnect_passes = refl

abbrev invalid_transition_bound_to_idle_rejected : Bool
invalid_transition_bound_to_idle_rejected =
    passes (plug_1_1 ∷ moves "1-1" bound ∷ stays "1-1" idle bound ∷ [])

invalid_transition_bound_to_idle_rejected_passes : invalid_transition_bound_to_idle_rejected ≡ true
unfolding passes new with_capacity handle_send snapshot command_round on_command handle_command
    is_valid_transition attach release drop_bus retain_others keep_list push_new contains stop
    signal
invalid_transition_bound_to_idle_rejected_passes = refl

abbrev forwarded_to_different_forwarded_rejected : Bool
forwarded_to_different_forwarded_rejected = passes (
    plug_1_1
    ∷ moves "1-1" bound
    ∷ moves "1-1" (forwarded "s1")
    ∷ stays "1-1" (forwarded "s2") (forwarded "s1")
    ∷ [])

forwarded_to_different_forwarded_rejected_passes : forwarded_to_different_forwarded_rejected ≡ true
unfolding passes new with_capacity handle_send snapshot command_round on_command handle_command
    is_valid_transition attach release drop_bus retain_others keep_list push_new contains stop
    signal
forwarded_to_different_forwarded_rejected_passes = refl

abbrev registry_handle_send_after_drop_returns_channel_closed : Bool
registry_handle_send_after_drop_returns_channel_closed =
    is_closed_error
      (handle_send tokio (add_device (make_device "1-1" 0x1234 0x5678))
        (stop tokio (signal tokio (new tokio)))).1

registry_handle_send_after_drop_returns_channel_closed_passes :
    registry_handle_send_after_drop_returns_channel_closed ≡ true
unfolding passes new with_capacity handle_send snapshot command_round on_command handle_command
    is_valid_transition attach release drop_bus retain_others keep_list push_new contains stop
    signal
registry_handle_send_after_drop_returns_channel_closed_passes = refl

-- A send with `unwrap`: whether all were accepted so far is kept.
abbrev waits : RegistryCommand → System tokio × Bool → System tokio × Bool
waits cmd (s, accepted) =
    let (t, r) = handle_send tokio cmd s in (t, accepted && not (is_closed_error r))

abbrev four_pending : System tokio × Bool
four_pending = waits (add_device (make_device "3-3" 0x1003 0x2003)) (
    waits (add_device (make_device "2-2" 0x1002 0x2002)) (
      waits (add_device (make_device "1-1" 0x1001 0x2001))
        (waits (add_device (make_device "0-0" 0x1000 0x2000)) (with_capacity tokio 8, true))))

-- The task after some rounds that take a command.
abbrev after_rounds : ℕ → System tokio → System tokio
after_rounds zero s = s
after_rounds (suc k) s = after_rounds k (command_round tokio s)

-- The task stops after so many rounds behind the signal, and the send behind it is refused.
abbrev refused_after : ℕ → Bool
refused_after k =
    is_closed_error
      (handle_send tokio (add_device (make_device "99-99" 0x9999 0x9999))
        (stop tokio (after_rounds k (signal tokio four_pending.0)))).1

-- The four commands are pending at the signal; whichever number of them the task takes before it stops.
abbrev shutdown_drains_pending_commands_before_stop : Bool
shutdown_drains_pending_commands_before_stop =
    four_pending.1
    && refused_after 0
    && refused_after 1
    && refused_after 2
    && refused_after 3
    && refused_after 4

shutdown_drains_pending_commands_before_stop_passes :
    shutdown_drains_pending_commands_before_stop ≡ true
unfolding passes new with_capacity handle_send snapshot command_round on_command handle_command
    is_valid_transition attach release drop_bus retain_others keep_list push_new contains stop
    signal
shutdown_drains_pending_commands_before_stop_passes = refl
