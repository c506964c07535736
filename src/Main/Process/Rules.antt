-- ===== src/Main/Process/Rules.antt =====
-- Which JNI calls, and which calls of the RFB server, come when.
use packages_services_vnc_fl.Main.Arguments.{Params}
use packages_services_vnc_fl.Main.Process.{
  Process, Entry, enter, is_there, initializes, begins, serves, processes, ends, quits,
  tells_clipboard, sets_props, tells_cursor,
}
use packages_services_vnc_fl.Pixels.{Floats}
use packages_services_vnc_fl.Input.Kernel.{Kernel}
use packages_services_vnc_fl.Desktop.State.{Desktop, Platform}
use packages_services_vnc_fl.Desktop.History.{DesktopCall, turn}
use packages_services_vnc_fl.Desktop.InStep.{is_present}
use packages_services_vnc_fl.Prelude.{
  List, [], ◌∷◌, Bool, true, false, Option, some, none, ◌&&◌, not,
}

module _ (ps : Params) (fs : Floats) (k : Kernel) (pf : Platform) where
  open fs use {Float}

  -- The RFB server has started the desktop and has not stopped it since.
  abbrev pub runs_in : Option (Desktop Float) → Bool
  runs_in none = false
  runs_in (some d) = is_present d.pixels

  abbrev pub takes_turn : DesktopCall Float → Option (Desktop Float) → Bool
  takes_turn c none = false
  takes_turn c (some d) = is_present (turn c (is_present d.pixels))

  -- Java initializes and starts a service only while none runs, and starts one only with a desktop,
  -- unless its listeners cannot be made; the RFB server starts and stops the desktop in turn, has
  -- started it once it has viewers, and has stopped it when the service ends. All other JNI calls
  -- come at any time.
  unfoldable pub permits : Entry ps fs k pf → Process ps fs k pf → Bool
  permits (initializes _ _ _) p = not p.serving
  permits (begins none) p = not p.serving
  permits (begins (some _)) p = not p.serving && is_there p.desktop
  permits (serves c) p = p.serving && takes_turn c p.desktop
  permits processes p = p.serving && runs_in p.desktop
  permits ends p = p.serving && not (runs_in p.desktop)
  permits quits p = true
  permits tells_clipboard p = true
  permits (sets_props _ _ _ _ _ _) p = true
  permits (tells_cursor _) p = true

  unfoldable pub follows_rules : List (Entry ps fs k pf) → Process ps fs k pf → Bool
  unfolding permits
  follows_rules [] p = true
  follows_rules (e ∷ es) p =
      permits e p && elim (enter ps fs k pf e p) [ none ↦ true | some q ↦ follows_rules es q ]
