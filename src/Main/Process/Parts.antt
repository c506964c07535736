-- ===== src/Main/Process/Parts.antt =====
-- The callbacks of main.cpp, a new desktop, and the references that a native method starts with.
use packages_services_vnc_fl.Jni.{Locals, new_ref}
use packages_services_vnc_fl.Pixels.{rotation_0}
use packages_services_vnc_fl.Desktop.State.{
  Desktop, Cursor, Event, new_surface, get_clipboard, set_clipboard, resize_display,
}
use packages_services_vnc_fl.Prelude.{
  ℕ, List, [], ◌∷◌, Bool, true, false, Option, some, none, if◌then◌else◌, ◌+◌,
}
use packages_services_vnc_fl.Prelude.Int.{pos, negsuc}

-- A call of Java through `gEnv` and `gThiz`.
abbrev pub is_callback : Event → Bool
is_callback new_surface = true
is_callback get_clipboard = true
is_callback (set_clipboard _) = true
is_callback (resize_display _ _) = true
is_callback _ = false

unfoldable pub callbacks : List Event → ℕ
callbacks [] = 0
callbacks (e ∷ es) = if is_callback e then callbacks es + 1 else callbacks es

-- What `android_view_PointerIcon_getLoadedIcon` returns.
pub record Icon : Type 0 where
  pub loaded : Bool
  pub is_valid : Bool
  pub cursor : Cursor

abbrev pub is_there {ℓ} : {A : Type ℓ} → Option A → Bool
is_there none = false
is_there (some _) = true

-- The members of the header that have an initializer; the others hold what the memory did.
unfoldable pub fresh_desktop : {F : Type 0} → Desktop F → Desktop F
fresh_desktop memory = record memory {
  layer_id = negsuc 0;
  asked_width = pos 1;
  asked_height = pos 1;
  asked_rotation = pos 0;
  touch = false;
  relative = false;
  pixels = none;
  display = none;
  mode_width = 0;
  mode_height = 0;
  display_state = rotation_0;
  input = none;
  frame_changed = false;
  cursor_changed = false;
  clipboard_changed = false;
  has_server = false;
  log = [];
}

-- The class of `thiz`, four times; the methods' ids are no references.
unfoldable pub find_methods : Locals → Locals
find_methods l = (new_ref (new_ref (new_ref (new_ref l).0).0).0).0

-- A native method starts with the references to its arguments.
abbrev pub at_entry : ℕ → Locals
at_entry copies = record { next = 2; refs = 1 ∷ 0 ∷ []; peak = 2; pinned = []; copies = copies }
