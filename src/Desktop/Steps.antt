-- ===== src/Desktop/Steps.antt =====
-- A desktop stays in step through every history that its callers can make.
use packages_services_vnc_fl.Desktop.InStep.{InStep, is_present, InStep-Keeps, same_parts-Keeps}
use packages_services_vnc_fl.Desktop.History.{
  DesktopCall, turn, make_call, run_calls, set_display_props, starts, left_by, lays_out, types,
  moves, announces, connects, cursor_changes, pastes, props, stops, processes_cursor,
  clipboard_asked, processes_frames, processes_clipboard, clipboard_changes, frame_arrives,
}
use packages_services_vnc_fl.Desktop.Calls.{
  Served, Light-Served, runs, desktop_key_event-Light, desktop_pointer_event-Light,
  process_cursor-Light, handle_clipboard_request-Light, handle_clipboard_announce-Light,
  query_connection-Light, process_clipboard-Light, notify_clipboard_changed-Light,
  on_frame_available-Light, set_cursor-Light, handle_clipboard_data-Light,
}
use packages_services_vnc_fl.Pixels.{Floats}
use packages_services_vnc_fl.Input.Kernel.{Kernel}
use packages_services_vnc_fl.Desktop.State.{Platform, Desktop}
use packages_services_vnc_fl.Prelude.{
  Bool, ◌≡◌, some, false, none, Option-cases, inr, inl, ap, ◌∙◌, List, Option, ◌∷◌, [], refl, true,
}
use packages_services_vnc_fl.Desktop.Running.{
  stop_desktop-InStep, start_desktop-InStep, set_screen_layout_of-InStep,
}
use packages_services_vnc_fl.Desktop.Frames.{process_frames-InStep}

module _ (fs : Floats) (k : Kernel) (pf : Platform) where
  open fs use {Float}

  stopped : (d : Desktop Float) → is_present d.pixels ≡ false → d.pixels ≡ none
  stopped d h = elim (Option-cases d.pixels) [ inl e ↦ e | inr (p, e) ↦ cc (ap is_present e, h) ]

  pub make_call-Served :
      (c : DesktopCall Float) (running next : Bool) (d : Desktop Float)
      → turn c running ≡ some next
      → is_present d.pixels ≡ running
      → InStep fs d
      → Served fs k pf c next d
  unfolding turn make_call Served set_display_props
  make_call-Served (starts device buffer) true next d e there s = cc
  make_call-Served (starts device buffer) false next d e there s =
      let (d', run, s', there') =
        start_desktop-InStep fs k pf device buffer d (stopped d there) s in
      (d', ap left_by run, s', there' ∙ cc e)
  make_call-Served stops false next d e there s = cc
  make_call-Served stops true next d e there s =
      let r = runs fs k pf d there s in
      let (d', run, s', gone) = stop_desktop-InStep fs k pf d r.buffer r.held s in
      (d', ap left_by run, s', ap is_present gone ∙ cc e)
  make_call-Served (lays_out w h) false next d e there s = cc
  make_call-Served (lays_out w h) true next d e there s =
      let r = runs fs k pf d there s in
      let (d', result, run, s', there') =
        set_screen_layout_of-InStep fs k pf w h d r.buffer r.held s in
      (d', ap left_by run, s', there' ∙ cc e)
  make_call-Served (types keysym down) false next d e there s = cc
  make_call-Served (types keysym down) true next d e there s =
      Light-Served fs k pf (types keysym down) true next d _ refl s there e
        (desktop_key_event-Light fs k pf d keysym down (runs fs k pf d there s).device)
  make_call-Served (moves x y mask) false next d e there s = cc
  make_call-Served (moves x y mask) true next d e there s =
      let r = runs fs k pf d there s in
      Light-Served fs k pf (moves x y mask) true next d _ refl s there e
        (desktop_pointer_event-Light fs k pf d x y mask r.buffer r.held r.server r.device)
  make_call-Served processes_cursor false next d e there s = cc
  make_call-Served processes_cursor true next d e there s =
      Light-Served fs k pf processes_cursor true next d _ refl s there e
        (process_cursor-Light fs k pf d (runs fs k pf d there s).server)
  make_call-Served clipboard_asked false next d e there s = cc
  make_call-Served clipboard_asked true next d e there s =
      Light-Served fs k pf clipboard_asked true next d _ refl s there e
        (handle_clipboard_request-Light fs k pf d (runs fs k pf d there s).server)
  make_call-Served (announces b) false next d e there s = cc
  make_call-Served (announces b) true next d e there s =
      Light-Served fs k pf (announces b) true next d _ refl s there e
        (handle_clipboard_announce-Light fs k pf d b (runs fs k pf d there s).server)
  make_call-Served (connects sock) false next d e there s = cc
  make_call-Served (connects sock) true next d e there s =
      Light-Served fs k pf (connects sock) true next d _ refl s there e
        (query_connection-Light fs k pf d sock (runs fs k pf d there s).server)
  make_call-Served processes_frames running next d e there s =
      let (d', run, s', same) = process_frames-InStep fs k pf d s in
      (d', ap left_by run, s', same ∙ there ∙ cc e)
  make_call-Served processes_clipboard running next d e there s =
      Light-Served fs k pf processes_clipboard running next d _ refl s there e
        (process_clipboard-Light fs k pf d)
  make_call-Served clipboard_changes running next d e there s =
      Light-Served fs k pf clipboard_changes running next d _ refl s there e
        (notify_clipboard_changed-Light fs k pf d)
  make_call-Served frame_arrives running next d e there s =
      Light-Served fs k pf frame_arrives running next d _ refl s there e
        (on_frame_available-Light fs k pf d)
  make_call-Served (cursor_changes c) running next d e there s =
      Light-Served fs k pf (cursor_changes c) running next d _ refl s there e
        (set_cursor-Light fs k pf d c)
  make_call-Served (pastes text) running next d e there s =
      Light-Served fs k pf (pastes text) running next d _ refl s there e
        (handle_clipboard_data-Light fs k pf d text)
  make_call-Served (props w h rotation layer touch relative) running next d e there s = (
    set_display_props w h rotation layer touch relative d,
    refl,
    InStep-Keeps fs d (set_display_props w h rotation layer touch relative d)
        (same_parts-Keeps fs _ _ refl refl refl) s,
    there ∙ cc e,
  )

  -- Whether the desktop runs after a history, and `none` if a call in it is not made then.
  unfoldable pub turns : List (DesktopCall Float) → Bool → Option Bool
  turns [] running = some running
  turns (c ∷ cs) running = elim (turn c running) [ none ↦ none | some next ↦ turns cs next ]

  pub run_calls-InStep_from :
      (cs : List (DesktopCall Float)) (running last : Bool) (d : Desktop Float)
      → turns cs running ≡ some last
      → is_present d.pixels ≡ running
      → InStep fs d
      → (d' : Desktop Float) × (run_calls fs k pf cs d ≡ some d')
        × InStep fs d'
        × (is_present d'.pixels ≡ last)
  unfolding turns run_calls Served
  run_calls-InStep_from [] running last d e there s = (d, refl, s, there ∙ cc e)
  run_calls-InStep_from (c ∷ cs) running last d e there s = elim (Option-cases (turn c running)) [
    | inl never ↦ cc (simp (never, turns) at e)
    | inr (next, h) ↦
        let (d1, run, s1, there1) = make_call-Served c running next d h there s in
        let (d', rest, s', there') =
          run_calls-InStep_from cs next last d1 (simp (h, turns) at e) there1 s1 in
        (d', simp (run, run_calls) rest, s', there')
  ]
