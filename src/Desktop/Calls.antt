-- ===== src/Desktop/Calls.antt =====
-- Every call of a desktop runs to its end and keeps its parts in step.
use packages_services_vnc_fl.Pixels.{Floats, PixelBuffer}
use packages_services_vnc_fl.Input.Kernel.{Kernel}
use packages_services_vnc_fl.Desktop.State.{
  Desktop, Platform, Cursor, >>-run, serve, serve_lem, with_pixels, request_clipboard,
  approve_connection, announce_clipboard, server_cursor, get_clipboard, send_clipboard, cursor_pos,
  on_input_lem,
}
use packages_services_vnc_fl.Desktop.Server.{
  desktop_key_event, desktop_pointer_event, notify_clipboard_changed, set_cursor,
  on_frame_available, process_clipboard, process_cursor, handle_clipboard_request, scaled, outside,
  handle_clipboard_announce, handle_clipboard_data, query_connection, send_text, send_pointer,
}
use packages_services_vnc_fl.Desktop.InStep.{
  served_size, Keeps, is_present, InStep, InStepOf, InStep-Keeps, same_parts-Keeps,
}
use packages_services_vnc_fl.Prelude.{
  ◌≡◌, ℕ, Bool, Option, List, Bool-cases, some, true, inr, ap, none, inl, refl, false, ◌∷◌, sym, [],
  subst, ◌∙◌,
}
use packages_services_vnc_fl.Prelude.Int.{ℤ, signed32}
use packages_services_vnc_fl.Display.{get_width, get_height}
use packages_services_vnc_fl.Input.Keyboard.{key_event}
use packages_services_vnc_fl.Input.Pointer.{pointer_event}
use packages_services_vnc_fl.Desktop.History.{DesktopCall, make_call, left_by}

present {ℓ} : {A : Type ℓ} (o : Option A) → is_present o ≡ true → (a : A) × (o ≡ some a)
present none h = cc
present (some a) h = (a, refl)

module _ (fs : Floats) (k : Kernel) (pf : Platform) where
  open fs use {Float}

  -- The call runs, and keeps what `InStep` is about.
  pub record Light (run : Option (Desktop Float × Unit {0})) (d : Desktop Float) : Type 0 where
    pub after : Desktop Float
    pub runs : run ≡ some (after, tt)
    pub keeps : Keeps fs d after

  light :
      (run : Option (Desktop Float × Unit {0})) (d after : Desktop Float)
      → run ≡ some (after, tt)
      → after ≡ record after {
        pixels = d.pixels;
        display = d.display;
        display_rect = d.display_rect;
        has_server = d.has_server;
      }
      → served_size after.log ≡ served_size d.log
      → is_present after.input ≡ is_present d.input
      → Light run d
  light run d after e f s i = record {
    after = after;
    runs = e;
    keeps = same_parts-Keeps fs d after f i s;
  }

  module _ (d : Desktop Float) where
    pub notify_clipboard_changed-Light : Light (notify_clipboard_changed d) d
    unfolding notify_clipboard_changed served_size
    notify_clipboard_changed-Light = light _ d _ refl refl refl refl

    pub on_frame_available-Light : Light (on_frame_available d) d
    unfolding on_frame_available served_size
    on_frame_available-Light = light _ d _ refl refl refl refl

    pub set_cursor-Light : (c : Cursor) → Light (set_cursor c d) d
    unfolding set_cursor served_size
    set_cursor-Light c = light _ d _ refl refl refl refl

    pub handle_clipboard_data-Light : (text : List ℕ) → Light (handle_clipboard_data text d) d
    unfolding handle_clipboard_data served_size
    handle_clipboard_data-Light text = light _ d _ refl refl refl refl

    pub process_clipboard-Light : Light (process_clipboard d) d
    unfolding process_clipboard served_size
    process_clipboard-Light = elim (Bool-cases d.clipboard_changed) [
      | inr same ↦ light _ d d (simp (same, process_clipboard)) refl refl refl
      | inl new ↦ elim (Bool-cases d.has_server) [
        | inr without ↦
            light _ d (record d { clipboard_changed = false })
              (simp (new, without, process_clipboard)) refl refl refl
        | inl server ↦
            light _ d
              (record d { clipboard_changed = false; log = announce_clipboard true ∷ d.log })
              (simp (new, server, process_clipboard, serve)) refl refl refl
      ]
    ]

    pub process_cursor-Light : d.has_server ≡ true → Light (process_cursor d) d
    unfolding process_cursor served_size
    process_cursor-Light h = elim (Bool-cases d.cursor_changed) [
      | inr same ↦ light _ d d (simp (same, process_cursor)) refl refl refl
      | inl new ↦
          light _ d (record d { cursor_changed = false; log = server_cursor d.cursor ∷ d.log })
            (simp (new, h, process_cursor, serve)) refl refl refl
    ]

    pub send_text-Light : (text : List ℕ) → d.has_server ≡ true → Light (send_text text d) d
    unfolding send_text served_size
    send_text-Light [] h = light _ d d refl refl refl refl
    send_text-Light (c ∷ cs) h =
        light _ d _ (serve_lem (send_clipboard (c ∷ cs)) d h) refl refl refl

  module _ (d : Desktop Float) where
    pub handle_clipboard_request-Light :
        d.has_server ≡ true → Light (handle_clipboard_request pf d) d
    unfolding handle_clipboard_request served_size
    handle_clipboard_request-Light h =
        let l = send_text-Light (record d { log = get_clipboard ∷ d.log }) (pf.clipboard d.log) h in
        record {
          after = l.after;
          runs = l.runs;
          keeps = record {
            pixels = l.keeps.pixels;
            display = l.keeps.display;
            rect = l.keeps.rect;
            input = l.keeps.input;
            server = l.keeps.server;
            served = l.keeps.served;
          };
        }

    pub handle_clipboard_announce-Light :
        (b : Bool) → d.has_server ≡ true → Light (handle_clipboard_announce b d) d
    unfolding handle_clipboard_announce served_size
    handle_clipboard_announce-Light true h =
        light _ d _ (serve_lem request_clipboard d h) refl refl refl
    handle_clipboard_announce-Light false h = light _ d d refl refl refl refl

    pub query_connection-Light :
        (sock : ℕ) → d.has_server ≡ true → Light (query_connection sock d) d
    unfolding query_connection served_size
    query_connection-Light sock h =
        light _ d _ (serve_lem (approve_connection sock) d h) refl refl refl

    pub desktop_key_event-Light :
        (keysym : ℕ) (down : Bool)
        → is_present d.input ≡ true
        → Light (desktop_key_event fs k pf keysym down d) d
    unfolding desktop_key_event
    desktop_key_event-Light keysym down h =
        let (i, hi) = present d.input h in
        light _ d (record d { input = some (key_event k down keysym i).0 })
          (on_input_lem (λ j. (key_event k down keysym j).0) d i hi) refl refl (sym h)

    pub send_pointer-Light :
        (x y mask : ℕ)
        → d.has_server ≡ true
        → is_present d.input ≡ true
        → Light (send_pointer fs k pf x y mask d) d
    unfolding send_pointer served_size
    send_pointer-Light x y mask hs h =
        let (i, hi) = present d.input h in
        let c = record d { log = cursor_pos x y ∷ d.log } in
        light _ d (record c { input = some (pointer_event k mask (signed32 x) (signed32 y) i).0 })
          (>>-run (serve (cursor_pos x y)) _ (serve_lem (cursor_pos x y) d hs)
            (on_input_lem (λ j. (pointer_event k mask (signed32 x) (signed32 y) j).0) c i hi))
          refl refl (sym h)

    pub desktop_pointer_event-Light :
        (x y : ℤ) (mask : ℕ) (p : PixelBuffer Float)
        → d.pixels ≡ some p
        → d.has_server ≡ true
        → is_present d.input ≡ true
        → Light (desktop_pointer_event fs k pf x y mask d) d
    unfolding desktop_pointer_event served_size
    desktop_pointer_event-Light x y mask p hp hs h =
        elim (Bool-cases (outside d.display_rect x y)) [
          | inl out ↦ light _ d d (simp (out, desktop_pointer_event)) refl refl refl
          | inr inside ↦
              let l =
                send_pointer-Light
                  (scaled fs k pf x p.width (get_width d.display_rect) d.mode_width)
                  (scaled fs k pf y p.height (get_height d.display_rect) d.mode_height) mask hs h in
              record {
                after = l.after;
                runs = simp (inside, hp, desktop_pointer_event, with_pixels) l.runs;
                keeps = l.keeps;
              }
        ]

  -- What a call has to come to.
  unfoldable pub Served : DesktopCall Float → Bool → Desktop Float → Type 0
  Served c next d =
      (d' : Desktop Float) × (make_call fs k pf c d ≡ some d')
      × InStep fs d'
      × (is_present d'.pixels ≡ next)

  pub Light-Served :
      (c : DesktopCall Float) (running next : Bool) (d : Desktop Float)
      (run : Option (Desktop Float × Unit {0}))
      → make_call fs k pf c d ≡ left_by run
      → InStep fs d
      → is_present d.pixels ≡ running
      → some running ≡ some next
      → Light run d
      → Served c next d
  unfolding Served
  Light-Served c running next d run e s there same l = (
    l.after,
    e ∙ ap left_by l.runs,
    InStep-Keeps fs d l.after l.keeps s,
    ap is_present l.keeps.pixels ∙ there ∙ cc (same),
  )

  -- What is there while a desktop runs.
  pub record Runs (d : Desktop Float) : Type 0 where
    pub buffer : PixelBuffer Float
    pub held : d.pixels ≡ some buffer
    pub server : d.has_server ≡ true
    pub device : is_present d.input ≡ true

  pub runs : (d : Desktop Float) → is_present d.pixels ≡ true → InStep fs d → Runs d
  runs d h s =
      let (p, hp) = present d.pixels h in
      let t = subst (λ o. InStepOf fs o d) hp s in
      record { buffer = p; held = hp; server = t.1; device = t.2 }
