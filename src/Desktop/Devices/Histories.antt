-- ===== src/Desktop/Devices/Histories.antt =====
-- The device through every call of a desktop, and through a history of them.
use packages_services_vnc_fl.Desktop.Devices.{
  Leaves, done-Leaves, serve-Leaves, Steady, then-Leaves,
}
use packages_services_vnc_fl.Desktop.State.{
  Desktop, Platform, Cursor, Event, set_clipboard, get_clipboard, announce_clipboard, notify_event,
}
use packages_services_vnc_fl.Desktop.History.{
  stops, processes_frames, processes_cursor, processes_clipboard, clipboard_changes, frame_arrives,
  clipboard_asked, lays_out, moves, cursor_changes, announces, pastes, connects, props, types,
  DesktopCall, starts, run_calls, make_call, left_by, set_display_props,
}
use packages_services_vnc_fl.Desktop.Server.{
  notify_clipboard_changed, set_cursor, on_frame_available, process_clipboard, process_cursor,
  handle_clipboard_request, handle_clipboard_announce, handle_clipboard_data, query_connection,
  send_text, take_frame, draw_frame, process_frames,
}
use packages_services_vnc_fl.Input.Kernel.{Device, Kernel}
use packages_services_vnc_fl.Prelude.{
  List, Bool, ℕ, ◌∷◌, [], true, false, inl, inr, Bool-cases, arith, ◌&&◌, not, Option, Option-cases,
  ◌≡◌, some, subst, none, refl,
}
use packages_services_vnc_fl.Pixels.{Floats}
use packages_services_vnc_fl.Desktop.Size.{update_display_info}
use packages_services_vnc_fl.Desktop.Devices.Methods.{
  start_desktop-Leaves, stop_desktop-Leaves, set_screen_layout_of-Leaves, desktop_key_event-Leaves,
  desktop_pointer_event-Leaves,
}
use packages_services_vnc_fl.Desktop.Devices.Sizes.{update_display_info-Leaves}

-- The memory of each new input device passes a test.
abbrev pub fits_memory : {F : Type 0} → (Device → Bool) → DesktopCall F → Bool
fits_memory fits (starts device buffer) = fits device
fits_memory fits _ = true

unfoldable pub all_fit : {F : Type 0} → (Device → Bool) → List (DesktopCall F) → Bool
all_fit fits [] = true
all_fit fits (c ∷ cs) = fits_memory fits c && all_fit fits cs

-- The methods that leave the input device alone.
module _ {F : Type 0} {k : Kernel} {pf : Platform} (Q : Option Device → List Event → Type 0)
    {fits : Device → Bool} (s : Steady k pf fits Q) (d : Desktop F) (o : Q d.input d.log) where
  notify_clipboard_changed-Leaves : Leaves Q (notify_clipboard_changed d)
  unfolding notify_clipboard_changed Leaves
  notify_clipboard_changed-Leaves = s.emits notify_event d.input d.log refl o

  on_frame_available-Leaves : Leaves Q (on_frame_available d)
  unfolding on_frame_available Leaves
  on_frame_available-Leaves = s.emits notify_event d.input d.log refl o

  set_cursor-Leaves : (c : Cursor) → Leaves Q (set_cursor c d)
  unfolding set_cursor Leaves
  set_cursor-Leaves c = s.emits notify_event d.input d.log refl o

  handle_clipboard_data-Leaves : (text : List ℕ) → Leaves Q (handle_clipboard_data text d)
  unfolding handle_clipboard_data Leaves
  handle_clipboard_data-Leaves text = s.emits (set_clipboard text) d.input d.log refl o

  query_connection-Leaves : (sock : ℕ) → Leaves Q (query_connection sock d)
  unfolding query_connection
  query_connection-Leaves sock = serve-Leaves Q s _ d refl o

  handle_clipboard_announce-Leaves :
      (available : Bool) → Leaves Q (handle_clipboard_announce available d)
  unfolding handle_clipboard_announce
  handle_clipboard_announce-Leaves true = serve-Leaves Q s _ d refl o
  handle_clipboard_announce-Leaves false = done-Leaves Q d tt o

  send_text-Leaves : (text : List ℕ) → Leaves Q (send_text text d)
  unfolding send_text
  send_text-Leaves [] = done-Leaves Q d tt o
  send_text-Leaves (c ∷ cs) = serve-Leaves Q s _ d refl o

  process_cursor-Leaves : Leaves Q (process_cursor d)
  unfolding process_cursor
  process_cursor-Leaves = elim (Bool-cases (not d.cursor_changed)) [
    | inl y ↦ rw y (done-Leaves Q d tt o)
    | inr n ↦ rw n (serve-Leaves Q s _ (record d { cursor_changed = false }) refl o)
  ]

  process_clipboard-Leaves : Leaves Q (process_clipboard d)
  unfolding process_clipboard Leaves
  process_clipboard-Leaves =
      let told = s.emits (announce_clipboard true) d.input d.log refl o in ground arith

handle_clipboard_request-Leaves :
    {F : Type 0} {k : Kernel} (pf : Platform) (Q : Option Device → List Event → Type 0)
    {fits : Device → Bool} (s : Steady k pf fits Q) (d : Desktop F)
    → Q d.input d.log
    → Leaves Q (handle_clipboard_request pf d)
unfolding handle_clipboard_request
handle_clipboard_request-Leaves pf Q s d o =
    send_text-Leaves Q s (record d { log = get_clipboard ∷ d.log })
      (s.emits get_clipboard d.input d.log refl o) (pf.clipboard d.log)

module _ (fs : Floats) (k : Kernel) (pf : Platform) (Q : Option Device → List Event → Type 0)
    {fits : Device → Bool} (s : Steady k pf fits Q) where
  open fs use {Float}

  draw_frame-Leaves : (d : Desktop Float) → Q d.input d.log → Leaves Q (draw_frame fs k pf d)
  unfolding draw_frame Leaves
  draw_frame-Leaves d o = elim (Option-cases (pf.next_buffer d.log)) [
    | inl missed ↦ simp (missed, draw_frame) (s.misses d.input d.log missed o)
    | inr ((w, h), e) ↦ let shown = s.draws w h d.input d.log e o in ground (arith, e)
  ]

  take_frame-Leaves : (d : Desktop Float) → Q d.input d.log → Leaves Q (take_frame fs k pf d)
  unfolding take_frame
  take_frame-Leaves d o =
      let e = record d { frame_changed = false } in
      then-Leaves Q (update_display_info fs k pf false) (λ _. _) e
        (update_display_info-Leaves fs k pf Q s false e o) (λ _ d1 o1. draw_frame-Leaves d1 o1)

  process_frames-Leaves :
      (d : Desktop Float) → Q d.input d.log → Leaves Q (process_frames fs k pf d)
  unfolding process_frames
  process_frames-Leaves d o = elim (Option-cases d.display) [
    | inl e ↦ simp (e, process_frames) (done-Leaves Q d tt o)
    | inr (v, e) ↦ elim (Option-cases d.pixels) [
      | inl e' ↦ simp (e, e', process_frames) (done-Leaves Q d tt o)
      | inr (p, e') ↦ elim (Bool-cases d.frame_changed) [
        | inl y ↦ simp (e, e', y, process_frames) (take_frame-Leaves d o)
        | inr n ↦ simp (e, e', n, process_frames) (done-Leaves Q d tt o)
      ]
    ]
  ]

  -- What a call that goes through leaves.
  left_by-Good :
      {A : Type 0} (run : Option (Desktop Float × A)) {d' : Desktop Float}
      → Leaves Q run
      → left_by run ≡ some d'
      → Q d'.input d'.log
  unfolding Leaves
  left_by-Good none h e = cc
  left_by-Good (some (d, a)) h e =
      subst (λ (o : Option (Desktop Float)). elim o [ none ↦ Unit {0} | some x ↦ Q x.input x.log ])
        e h

  pub make_call-Good :
      (c : DesktopCall Float) (d : Desktop Float) {d' : Desktop Float}
      → fits_memory fits c ≡ true
      → Q d.input d.log
      → make_call fs k pf c d ≡ some d'
      → Q d'.input d'.log
  unfolding make_call set_display_props
  make_call-Good (starts device buffer) d h o e =
      left_by-Good _ (start_desktop-Leaves fs k pf Q s device buffer d (ground arith) o) e
  make_call-Good stops d h o e = left_by-Good _ (stop_desktop-Leaves fs k pf Q s d o) e
  make_call-Good processes_frames d h o e = left_by-Good _ (process_frames-Leaves d o) e
  make_call-Good processes_cursor d h o e = left_by-Good _ (process_cursor-Leaves Q s d o) e
  make_call-Good processes_clipboard d h o e = left_by-Good _ (process_clipboard-Leaves Q s d o) e
  make_call-Good clipboard_changes d h o e =
      left_by-Good _ (notify_clipboard_changed-Leaves Q s d o) e
  make_call-Good frame_arrives d h o e = left_by-Good _ (on_frame_available-Leaves Q s d o) e
  make_call-Good clipboard_asked d h o e =
      left_by-Good _ (handle_clipboard_request-Leaves pf Q s d o) e
  make_call-Good (lays_out w hh) d h o e =
      left_by-Good _ (set_screen_layout_of-Leaves fs k pf Q s w hh d o) e
  make_call-Good (types keysym down) d h o e =
      left_by-Good _ (desktop_key_event-Leaves fs k pf Q s keysym down d o) e
  make_call-Good (moves x y mask) d h o e =
      left_by-Good _ (desktop_pointer_event-Leaves fs k pf Q s x y mask d o) e
  make_call-Good (cursor_changes c) d h o e = left_by-Good _ (set_cursor-Leaves Q s d o c) e
  make_call-Good (announces b) d h o e =
      left_by-Good _ (handle_clipboard_announce-Leaves Q s d o b) e
  make_call-Good (pastes text) d h o e =
      left_by-Good _ (handle_clipboard_data-Leaves Q s d o text) e
  make_call-Good (connects sock) d h o e = left_by-Good _ (query_connection-Leaves Q s d o sock) e
  make_call-Good (props a b c l t r) d h o e =
      left_by-Good (some (set_display_props a b c l t r d, tt)) (done-Leaves Q _ tt o) e

  pub run_calls-Good :
      (cs : List (DesktopCall Float)) (d : Desktop Float) {d' : Desktop Float}
      → all_fit fits cs ≡ true
      → Q d.input d.log
      → run_calls fs k pf cs d ≡ some d'
      → Q d'.input d'.log
  unfolding run_calls all_fit
  run_calls-Good [] d h o e = left_by-Good (some (d, tt)) (done-Leaves Q d tt o) e
  run_calls-Good (c ∷ cs) d h o e = elim (Option-cases (make_call fs k pf c d)) [
    | inl gone ↦ cc (simp (gone, run_calls) at e)
    | inr (d1, run) ↦
        run_calls-Good cs d1 (ground arith) (make_call-Good c d (ground arith) o run)
          (simp (run, run_calls) at e)
  ]
