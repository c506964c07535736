-- ===== src/Main/Process/Surface.antt =====
-- The event loop of a desktop that was never started.
use packages_services_vnc_fl.Main.Arguments.{Params}
use packages_services_vnc_fl.Main.Process.{
  Process, Icon, notify_server_cursor_changed, with_env, callbacks, process_display_events,
  display_calls,
}
use packages_services_vnc_fl.Pixels.{Floats}
use packages_services_vnc_fl.Input.Kernel.{Kernel}
use packages_services_vnc_fl.Desktop.State.{Desktop, Platform, notify_event}
use packages_services_vnc_fl.Prelude.{true, false, some, none, ◌≡◌, refl, arith, ◌∷◌}
use packages_services_vnc_fl.Desktop.Server.{process_cursor, set_cursor}
use packages_services_vnc_fl.Desktop.History.{run_calls, make_call}

module _ (ps : Params) (fs : Floats) (k : Kernel) (pf : Platform) where
  open fs use {Float}

  told : Icon → Desktop Float → Desktop Float
  told icon d = record d { cursor = icon.cursor; cursor_changed = true; log = notify_event ∷ d.log }

  notify_server_cursor_changed-told :
      (icon : Icon) (p q : Process ps fs k pf) (d : Desktop Float)
      → p.desktop ≡ some d
      → icon.loaded ≡ true
      → icon.is_valid ≡ true
      → notify_server_cursor_changed ps fs k pf icon p ≡ some q
      → q.desktop ≡ some (told icon d)
  unfolding notify_server_cursor_changed with_env callbacks set_cursor told
  notify_server_cursor_changed-told icon p q d h loaded valid e = ground arith

  process_cursor-told :
      (icon : Icon) (d : Desktop Float) → d.has_server ≡ false → process_cursor (told icon d) ≡ none
  unfolding process_cursor told
  process_cursor-told icon d h = ground arith

  display_calls-told :
      (icon : Icon) (d : Desktop Float)
      → d.has_server ≡ false
      → run_calls fs k pf (display_calls ps fs k pf) (told icon d) ≡ none
  unfolding run_calls make_call
  display_calls-told icon d h = ground (arith, process_cursor-told icon d h)

  -- A valid icon that Java tells of while there is a desktop that the RFB server has not started is
  -- stored, and the next display event that the loop processes then uses `mServer`, which is not
  -- set.
  pub cursor_before_start :
      (icon : Icon) (p q : Process ps fs k pf) (d : Desktop Float)
      → p.desktop ≡ some d
      → d.has_server ≡ false
      → icon.loaded ≡ true
      → icon.is_valid ≡ true
      → notify_server_cursor_changed ps fs k pf icon p ≡ some q
      → process_display_events ps fs k pf q ≡ none
  unfolding process_display_events with_env
  cursor_before_start icon p q d h hs loaded valid e =
      rw (notify_server_cursor_changed-told icon p q d h loaded valid e)
        (rw (display_calls-told icon d hs) refl)
