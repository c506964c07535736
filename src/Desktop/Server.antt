-- ===== src/Desktop/Server.antt =====
-- The other methods of AndroidDesktop: the constructor, what the RFB server and the Java service call,
-- and what the event loop calls when the event descriptor was written.
use packages_services_vnc_fl.Pixels.{Floats}
use packages_services_vnc_fl.Display.{Rect, sub32, get_width, get_height}
use packages_services_vnc_fl.Input.Kernel.{Kernel}
use packages_services_vnc_fl.Input.Keyboard.{key_event}
use packages_services_vnc_fl.Input.Pointer.{pointer_event}
use packages_services_vnc_fl.Desktop.State.{
  Platform, Cursor, M, ◌>>◌, pure, modify, emit, serve, with_pixels, on_input, terminate_process,
  lock_buffer, get_clipboard, request_clipboard, notify_event, approve_connection, set_clipboard,
  cursor_pos, send_clipboard, new_surface, image_rect, server_cursor, announce_clipboard,
  unlock_buffer, add_changed,
}
use packages_services_vnc_fl.Desktop.Size.{update_display_info}
use packages_services_vnc_fl.Prelude.Int.{
  to_u32 as wrap_u32, ℤ, pos, ◌-ℤ◌, pos_part, signed32, negsuc, neg_part,
}
use packages_services_vnc_fl.Prelude.{
  true, none, if◌then◌else◌, ℕ, List, Bool, not, ◌||◌, ltb, some, ◌∷◌, false, ◌/◌, ◌+◌, ◌*◌, [],
  ◌-◌, ◌%◌, ◌^◌,
}

-- `a < b` on ints.
abbrev pub int_lt : ℤ → ℤ → Bool
int_lt a b = ltb (pos_part a + neg_part b) (pos_part b + neg_part a)

-- An int divided by 2, towards 0.
abbrev pub half : ℤ → ℤ
half (pos n) = pos (n / 2)
half (negsuc n) = if ltb n 1 then pos 0 else negsuc ((n + 1) / 2 - 1)

-- The test that drops a pointer event; the right and the bottom edge pass it.
unfoldable pub outside : Rect → ℤ → ℤ → Bool
outside r x y = int_lt x r.left || (int_lt r.right x || (int_lt y r.top || int_lt r.bottom y))

module _ {F : Type 0} where
  -- The constructor, with the result of `eventfd`; `fresh` has the initializers of the header.
  unfoldable pub construct_desktop : Bool → M F (Unit {0})
  construct_desktop created d =
      let rect : Rect = record { left = pos 0; top = pos 0; right = pos 0; bottom = pos 0 } in
      (do
        modify (λ e. record e { display_rect = rect })
        if created then emit new_surface else pure tt)
        d

  -- `if (strlen(data))`.
  unfoldable pub send_text : List ℕ → M F (Unit {0})
  send_text [] = pure tt
  send_text (c ∷ cs) = serve (send_clipboard (c ∷ cs))

  unfoldable pub handle_clipboard_request : Platform → M F (Unit {0})
  unfolding send_text
  handle_clipboard_request pf d = (do emit get_clipboard; send_text (pf.clipboard d.log)) d

  unfoldable pub handle_clipboard_announce : Bool → M F (Unit {0})
  handle_clipboard_announce available = if available then serve request_clipboard else pure tt

  unfoldable pub handle_clipboard_data : List ℕ → M F (Unit {0})
  handle_clipboard_data text = emit (set_clipboard text)

  unfoldable pub notify_clipboard_changed : M F (Unit {0})
  notify_clipboard_changed = do
    modify (λ d. record d { clipboard_changed = true })
    emit notify_event

  unfoldable pub set_cursor : Cursor → M F (Unit {0})
  set_cursor c = do
    modify (λ d. record d { cursor = c })
    modify (λ d. record d { cursor_changed = true })
    emit notify_event

  unfoldable pub on_frame_available : M F (Unit {0})
  on_frame_available = do modify (λ d. record d { frame_changed = true }); emit notify_event

  -- `if (mServer)`.
  unfoldable pub process_clipboard : M F (Unit {0})
  process_clipboard d =
      if not d.clipboard_changed
      then some (d, tt)
      else (do
        modify (λ e. record e { clipboard_changed = false })
        if d.has_server then serve (announce_clipboard true) else pure tt)
          d

  unfoldable pub process_cursor : M F (Unit {0})
  process_cursor d =
      if not d.cursor_changed
      then some (d, tt)
      else (do modify (λ e. record e { cursor_changed = false }); serve (server_cursor d.cursor)) d

  unfoldable pub query_connection : ℕ → M F (Unit {0})
  query_connection sock = serve (approve_connection sock)

  unfoldable pub terminate : M F (Unit {0})
  terminate = emit terminate_process

module _ (fs : Floats) (k : Kernel) (pf : Platform) where
  open fs use {Float, of_u32, to_u32, over}

  -- The locked buffer is drawn into the pixels and unlocked.
  unfoldable pub draw_frame : M Float (Unit {0})
  draw_frame d =
      let locked = record d { log = lock_buffer ∷ d.log } in
      elim (pf.next_buffer d.log) [
        | none ↦ some (locked, tt)
        | some (w, h) ↦
            (do
              with_pixels (λ p. emit (image_rect w h))
              emit (unlock_buffer w h)
              serve (add_changed w h))
              locked
      ]

  unfoldable pub take_frame : M Float (Unit {0})
  take_frame = do
    modify (λ d. record d { frame_changed = false })
    update_display_info fs k pf false
    draw_frame

  unfoldable pub process_frames : M Float (Unit {0})
  process_frames d = elim d.display [
    | none ↦ some (d, tt)
    | some _ ↦ elim d.pixels [
      | none ↦ some (d, tt)
      | some _ ↦ if d.frame_changed then take_frame d else some (d, tt)
    ]
  ]

  unfoldable pub desktop_key_event : ℕ → Bool → M Float (Unit {0})
  desktop_key_event keysym down = on_input (λ i. (key_event k down keysym i).0)

  -- A coordinate in the display: the offset is that of the rectangle in the buffer, `side` the
  -- rectangle's and `mode` the display's.
  unfoldable pub scaled : ℤ → ℕ → ℤ → ℕ → ℕ
  scaled position buffer side mode =
      let offset = wrap_u32 (half (pos buffer -ℤ side)) in
      to_u32
        (over (of_u32 (sub32 (wrap_u32 position) offset * mode % 2 ^ 32)) (of_u32 (pos_part side)))

  -- The server and the input device are given the translated position; the device takes it as ints.
  unfoldable pub send_pointer : ℕ → ℕ → ℕ → M Float (Unit {0})
  send_pointer x y mask = do
    serve (cursor_pos x y)
    on_input (λ i. (pointer_event k mask (signed32 x) (signed32 y) i).0)

  unfoldable pub desktop_pointer_event : ℤ → ℤ → ℕ → M Float (Unit {0})
  desktop_pointer_event px py mask d =
      let inside =
        with_pixels
          (λ p.
            send_pointer (scaled px p.width (get_width d.display_rect) d.mode_width)
              (scaled py p.height (get_height d.display_rect) d.mode_height) mask)
          d in
      if outside d.display_rect px py then some (d, tt) else inside
