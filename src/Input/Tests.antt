-- ===== src/Input/Tests.antt =====
-- Runs of the input device on concrete inputs, and its theorems at inputs that meet their hypotheses.
use packages_services_vnc_fl.Input.Kernel.{Kernel, Device, Call, ok, dev_create, ui_set_keybit}
use packages_services_vnc_fl.Input.Session.{run, run-Owned, starts, points, keys, stops}
use packages_services_vnc_fl.Prelude.{
  true, none, some, false, ◌≡◌, Bool, ◌++◌, ◌∷◌, refl, ◌&&◌, [], not, arith, ltb,
}
use packages_services_vnc_fl.Input.Lifecycle.{
  start, setup_of, construct, start_with, reset, open_and_configure, open_device, configure,
  set_options, set_keys, k_options, m_options,
}
use packages_services_vnc_fl.Input.Keyboard.Actions.{Actions, key_actions}
use packages_services_vnc_fl.Input.Keyboard.Wide.{is_alnum, key_event_wide_types_low}
use packages_services_vnc_fl.Input.Pointer.{pointer_event}
use packages_services_vnc_fl.Input.Writes.{key_writes, held}
use packages_services_vnc_fl.Input.Keyboard.{
  key_event, dispatch_event, fix_keysym, latin_event, direct_event, symbol_event,
  do_basic_key_event, scan_code, need_shift, lookup_latin1, lookup_key, lookup_symbol,
}
use packages_services_vnc_fl.Input.Pointer.Reading.{rel_at, synced, down, abs_at}
use packages_services_vnc_fl.Input.Lifecycle.Owned.{Owned}
use packages_services_vnc_fl.Input.Lifecycle.Ready.{Ready}
use packages_services_vnc_fl.Prelude.Int.{pos, ◌-ℤ◌}
use packages_services_vnc_fl.Input.Pointer.Buttons.{Agrees, SameModes, pointer_event_buttons}
use packages_services_vnc_fl.Input.Pointer.Position.{
  pointer_event_relative, pointer_event-synced, pointer_event_absolute,
}
use packages_services_vnc_fl.Input.Keyboard.Refines.{key_event-key_actions}
use packages_services_vnc_fl.Input.Keyboard.Layout.{typed, key_event_types_ascii}
use packages_services_vnc_fl.Input.Keyboard.Balance.{touches}
use packages_services_vnc_fl.Input.Inject.{do_keyboard_event, press, release, inject}
use packages_services_vnc_fl.Input.Tables.{
  qwerty, keysym_to_ascii, latin1_to_dead_chars, dead_chars_to_alt_char,
  spicial_keysym_to_direct_key, symbol_keysym_to_direct_key,
}
use packages_services_vnc_fl.Input.Lifecycle.Registered.{wanted, start_registers}
use packages_services_vnc_fl.Input.Codes.{key_max}
use packages_services_vnc_fl.Input.Lifecycle.Bits.{has_bit}
use packages_services_vnc_fl.Input.Keyboard.Released.{
  lets_all_go, KeyEvents, send_keys, keys_actions, overlapping_keys_balanced,
}
use packages_services_vnc_fl.Input.Keyboard.Overlap.{rolled, under_shift, capitals_share_shift}

-- A kernel that opens descriptor 3 and accepts every call.
abbrev willing : Kernel
willing = record { opens = λ cs. some 3; accepts = λ cs c. true; errno = λ cs. 0 }

-- A kernel that refuses to create the device.
abbrev refuses_create : Call → Bool
refuses_create (dev_create fd) = false
refuses_create _ = true

abbrev unwilling : Kernel
unwilling = record { opens = λ cs. some 3; accepts = λ cs c. refuses_create c; errno = λ cs. 22 }

abbrev blank : Device
blank = record {
  fd = none;
  opened = false;
  user_dev = setup_of 0 0 false;
  left_clicked = true;
  right_clicked = false;
  middle_clicked = true;
  last_x = pos 9;
  last_y = pos 9;
  touch = false;
  use_relative_input = false;
  calls = [];
}

-- An open mouse and an open touchscreen, every button up.
abbrev mouse : Device
mouse = record blank {
  fd = some 3;
  opened = true;
  left_clicked = false;
  middle_clicked = false;
  last_x = pos 0;
  last_y = pos 0;
}

abbrev relative_mouse : Device
relative_mouse = record mouse { use_relative_input = true }

euro_writes :
    key_writes (key_event willing true 0x20ac mouse).0.calls
    ≡ (56, true) ∷ (42, true) ∷ (3, true) ∷ (42, false) ∷ (56, false) ∷ []
unfolding key_event dispatch_event fix_keysym direct_event symbol_event do_keyboard_event press
    release inject key_writes lookup_latin1 lookup_key lookup_symbol keysym_to_ascii
    latin1_to_dead_chars dead_chars_to_alt_char spicial_keysym_to_direct_key
    symbol_keysym_to_direct_key
euro_writes = refl

e_acute_writes :
    key_writes (key_event willing true 0xe9 mouse).0.calls
    ≡ (56, true) ∷ (18, true) ∷ (56, false) ∷ (18, false) ∷ (18, true) ∷ []
unfolding key_event dispatch_event fix_keysym latin_event do_basic_key_event scan_code need_shift
    qwerty do_keyboard_event press release inject key_writes lookup_latin1 lookup_key
    keysym_to_ascii latin1_to_dead_chars dead_chars_to_alt_char
e_acute_writes = refl

key_event-key_actions_example :
    key_writes (key_event unwilling true 0xe9 mouse).0.calls ≡ key_actions true 0xe9
unfolding key_writes
key_event-key_actions_example = (key_event-key_actions unwilling true 0xe9 mouse refl).0

key_event_types_ascii_test :
    (acts : Actions) × (key_writes (key_event unwilling true b'&' mouse).0.calls
      ≡ key_writes mouse.calls ++ acts)
    × (typed acts ≡ b'&' ∷ [])
key_event_types_ascii_test =
    key_event_types_ascii unwilling b'&' mouse refl (omega arith) (omega arith)

key_event_wide_types_low_example :
    (acts : Actions) × (key_writes (key_event willing true 0x1010061 mouse).0.calls
      ≡ key_writes mouse.calls ++ acts)
    × (typed acts ≡ b'a' ∷ [])
unfolding is_alnum
key_event_wide_types_low_example =
    key_event_wide_types_low willing 0x1010061 mouse refl (omega arith) refl

-- Shift is held for the A while a ! is typed.
abbrev overlapping : KeyEvents
overlapping = (true, b'A') ∷ (true, b'!') ∷ (false, b'A') ∷ (false, b'!') ∷ []

overlapping_keys_balanced_test :
    held 42 false (key_writes (send_keys willing overlapping mouse).calls)
    ≡ (held 42 false (key_writes mouse.calls) && not (touches 42 (keys_actions overlapping)))
unfolding lets_all_go
overlapping_keys_balanced_test = overlapping_keys_balanced willing overlapping mouse 42 refl refl

mouse-Agrees : Agrees mouse
unfolding down
mouse-Agrees = record { left = refl; right = refl; middle = refl }

pointer_event_buttons_example :
    let e = (pointer_event unwilling 5 (pos 10) (pos 20) mouse).0 in
    Agrees e
    × SameModes mouse e
    × (down 0x110 e.calls ≡ true)
    × (down 0x111 e.calls ≡ true)
    × (down 0x112 e.calls ≡ false)
pointer_event_buttons_example =
    pointer_event_buttons unwilling 5 (pos 10) (pos 20) mouse refl mouse-Agrees

pointer_event_absolute_example :
    let e = (pointer_event willing 1 (pos 10) (pos 20) (record mouse { touch = true })).0 in
    (abs_at 0 (pos 7) e.calls ≡ pos 10) × (abs_at 1 (pos 7) e.calls ≡ pos 20)
pointer_event_absolute_example =
    pointer_event_absolute willing 1 (pos 10) (pos 20) (record mouse { touch = true }) (pos 7)
      (pos 7) refl refl refl

pointer_event_relative_example :
    let e = (pointer_event willing 0 (pos 10) (pos 20) relative_mouse).0 in
    (rel_at 0 (pos 0) e.calls ≡ pos 10)
    × (rel_at 1 (pos 0) e.calls ≡ pos 20)
    × (e.last_x ≡ pos 10)
    × (e.last_y ≡ pos 20)
unfolding rel_at ◌-ℤ◌
pointer_event_relative_example =
    pointer_event_relative willing 0 (pos 10) (pos 20) relative_mouse refl refl refl refl refl
      (omega arith) (omega arith)

pointer_event-synced_example :
    synced (pointer_event willing 24 (pos 10) (pos 20) mouse).0.calls ≡ true
unfolding synced
pointer_event-synced_example = pointer_event-synced willing 24 (pos 10) (pos 20) mouse refl

run-Owned_example : Owned unwilling (
    run unwilling
      (starts 640 480 false false ∷ points 1 (pos 3) (pos 4) ∷ keys true b'a' ∷ stops ∷ [])
      (construct blank))
run-Owned_example =
    run-Owned unwilling
      (starts 640 480 false false ∷ points 1 (pos 3) (pos 4) ∷ keys true b'a' ∷ stops ∷ []) blank
      refl

start_succeeds : (start willing 640 480 false false blank).1 ≡ ok
unfolding start start_with reset open_and_configure open_device configure set_options set_keys
    k_options m_options setup_of
start_succeeds = refl

start_registers_test :
    has_bit ui_set_keybit 0x110 (start willing 640 480 false false blank).0.calls
    ≡ (ltb 0x110 key_max && wanted false 0x110)
start_registers_test = start_registers willing 640 480 false false blank 0x110 start_succeeds

capitals_share_shift_example :
    ((acts : Actions) × (key_writes (send_keys willing (rolled b'I' b't') mouse).calls
        ≡ key_writes mouse.calls ++ acts)
      × (typed acts ≡ b'I' ∷ b'T' ∷ []))
    × (held 42 false (key_writes (send_keys willing (under_shift b'I') mouse).calls) ≡ false)
capitals_share_shift_example =
    capitals_share_shift willing b'I' b't' mouse refl (omega arith) (omega arith) (omega arith)
      (omega arith)
