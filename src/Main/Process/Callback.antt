-- ===== src/Main/Process/Callback.antt =====
-- The surface that Java is given in the callback `onNewSurfaceAvailable`, in the middle of
-- `onBufferDimensionsChanged`.
use packages_services_vnc_fl.Main.Arguments.{Params}
use packages_services_vnc_fl.Main.Process.{Process, get_surface}
use packages_services_vnc_fl.Display.{VirtualDisplay, get_display_rect}
use packages_services_vnc_fl.Pixels.{Floats, PixelBuffer}
use packages_services_vnc_fl.Input.Kernel.{Kernel}
use packages_services_vnc_fl.Desktop.State.{Desktop, Platform}
use packages_services_vnc_fl.Desktop.Size.{replace_display, on_buffer_dimensions_changed}
use packages_services_vnc_fl.Desktop.InStep.{served_size}
use packages_services_vnc_fl.Prelude.{true, some, ◌≡◌}

module _ (ps : Params) (fs : Floats) (k : Kernel) (pf : Platform) where
  open fs use {Float}

  -- The display `v` shows what the viewers of a running service see.
  pub record ShownBy (q : Process ps fs k pf) (v : VirtualDisplay) : Type 0 where
    pub desktop : Desktop Float
    pub buffer : PixelBuffer Float
    pub held : q.desktop ≡ some desktop
    pub pixels : desktop.pixels ≡ some buffer
    pub serving : q.serving ≡ true
    pub env : q.env ≡ true
    pub width : v.width ≡ buffer.width
    pub height : v.height ≡ buffer.height
    pub rect : desktop.display_rect ≡ get_display_rect fs v
    pub served : served_size desktop.log ≡ some (v.width, v.height)

  -- `onBufferDimensionsChanged` on a desktop `d`, whose process is `q` but for the desktop: `during` is
  -- the desktop at the callback, `after` the one at the end.
  pub record Renews (q : Process ps fs k pf) (old d : Desktop Float) : Type 0 where
    pub display : VirtualDisplay
    pub during : Desktop Float
    pub after : Desktop Float
    pub reaches : replace_display fs k pf d ≡ some (during, tt)
    pub given :
        get_surface ps fs k pf true true true (record q { desktop = some during }) ≡ some display
    pub old_rect : during.display_rect ≡ old.display_rect
    pub old_size : served_size during.log ≡ served_size old.log
    pub finishes : on_buffer_dimensions_changed fs k pf d ≡ some (after, tt)
    pub shown : ShownBy (record q { desktop = some after }) display
    pub still :
        get_surface ps fs k pf true true true (record q { desktop = some after }) ≡ some display

  resized : Desktop Float → PixelBuffer Float → Desktop Float
  resized d b = record d { pixels = some b }
