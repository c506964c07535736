-- ===== src/Desktop/History.antt =====
-- All that a desktop goes through: the calls of the RFB server, of the Java service, of the frame
-- consumer and of the event loop, one after the other.
use packages_services_vnc_fl.Pixels.{Floats, PixelBuffer}
use packages_services_vnc_fl.Input.Kernel.{Kernel, Device}
use packages_services_vnc_fl.Desktop.State.{Desktop, Platform, Cursor}
use packages_services_vnc_fl.Desktop.Size.{start_desktop, stop_desktop, set_screen_layout_of}
use packages_services_vnc_fl.Desktop.Server.{
  process_frames, desktop_key_event, desktop_pointer_event, notify_clipboard_changed, set_cursor,
  on_frame_available, process_clipboard, process_cursor, handle_clipboard_request,
  handle_clipboard_announce, handle_clipboard_data, query_connection,
}
use packages_services_vnc_fl.Prelude.Int.{ℤ}
use packages_services_vnc_fl.Prelude.{
  List, Option, Bool, some, ℕ, if◌then◌else◌, ◌∷◌, none, [], true, false,
}

-- `props` is the JNI call `setDisplayProps`: it sets the layer, the size, the rotation and the modes.
pub data DesktopCall (F : Type 0) : Type 0 where
  starts : Device → PixelBuffer F → DesktopCall F
  stops processes_frames processes_cursor processes_clipboard : DesktopCall F
  clipboard_changes frame_arrives clipboard_asked : DesktopCall F
  lays_out : ℤ → ℤ → DesktopCall F
  types : ℕ → Bool → DesktopCall F
  moves : ℤ → ℤ → ℕ → DesktopCall F
  cursor_changes : Cursor → DesktopCall F
  announces : Bool → DesktopCall F
  pastes : List ℕ → DesktopCall F
  connects : ℕ → DesktopCall F
  props : ℤ → ℤ → ℤ → ℤ → Bool → Bool → DesktopCall F

-- The JNI call `setDisplayProps` on a desktop.
unfoldable pub set_display_props :
    {F : Type 0} → ℤ → ℤ → ℤ → ℤ → Bool → Bool → Desktop F → Desktop F
set_display_props w h rotation layer touch relative d = record d {
  asked_width = w;
  asked_height = h;
  asked_rotation = rotation;
  layer_id = layer;
  touch = touch;
  relative = relative;
}

-- Whether the desktop runs after a call, and `none` for a call that is not made then: the RFB server
-- starts a stopped desktop only, stops a running one only, and makes the calls of its viewers while
-- the desktop runs; the event loop is taken to process the cursor only while the desktop runs, which its test
-- for viewers alone does not ensure.
unfoldable pub turn : {F : Type 0} → DesktopCall F → Bool → Option Bool
turn (starts _ _) running = if running then none else some true
turn stops running = if running then some false else none
turn (lays_out _ _) running = if running then some running else none
turn (types _ _) running = if running then some running else none
turn (moves _ _ _) running = if running then some running else none
turn processes_cursor running = if running then some running else none
turn clipboard_asked running = if running then some running else none
turn (announces _) running = if running then some running else none
turn (connects _) running = if running then some running else none
turn processes_frames running = some running
turn processes_clipboard running = some running
turn clipboard_changes running = some running
turn frame_arrives running = some running
turn (cursor_changes _) running = some running
turn (pastes _) running = some running
turn (props _ _ _ _ _ _) running = some running

-- The state that a method leaves.
abbrev pub left_by : {F A : Type 0} → Option (Desktop F × A) → Option (Desktop F)
left_by none = none
left_by (some (d, a)) = some d

module _ (fs : Floats) (k : Kernel) (pf : Platform) where
  open fs use {Float}

  unfoldable pub make_call : DesktopCall Float → Desktop Float → Option (Desktop Float)
  make_call (starts device buffer) d = left_by (start_desktop fs k pf device buffer d)
  make_call stops d = left_by (stop_desktop fs k pf d)
  make_call (lays_out w h) d = left_by (set_screen_layout_of fs k pf w h d)
  make_call (types keysym down) d = left_by (desktop_key_event fs k pf keysym down d)
  make_call (moves x y mask) d = left_by (desktop_pointer_event fs k pf x y mask d)
  make_call processes_cursor d = left_by (process_cursor d)
  make_call clipboard_asked d = left_by (handle_clipboard_request pf d)
  make_call (announces available) d = left_by (handle_clipboard_announce available d)
  make_call (connects sock) d = left_by (query_connection sock d)
  make_call processes_frames d = left_by (process_frames fs k pf d)
  make_call processes_clipboard d = left_by (process_clipboard d)
  make_call clipboard_changes d = left_by (notify_clipboard_changed d)
  make_call frame_arrives d = left_by (on_frame_available d)
  make_call (cursor_changes c) d = left_by (set_cursor c d)
  make_call (pastes text) d = left_by (handle_clipboard_data text d)
  make_call (props w h rotation layer touch relative) d =
      some (set_display_props w h rotation layer touch relative d)

  unfoldable pub run_calls : List (DesktopCall Float) → Desktop Float → Option (Desktop Float)
  run_calls [] d = some d
  run_calls (c ∷ cs) d = elim (make_call c d) [ none ↦ none | some d' ↦ run_calls cs d' ]
