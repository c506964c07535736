-- ===== src/Desktop/Drawn.antt =====
-- The buffers of the frame consumer in the log of a desktop.
use packages_services_vnc_fl.Desktop.State.{
  Event, Platform, lock_buffer, image_rect, unlock_buffer, add_changed,
}
use packages_services_vnc_fl.Desktop.Devices.{Steady, is_quiet}
use packages_services_vnc_fl.Input.Kernel.{Kernel}
use packages_services_vnc_fl.Prelude.{ℕ, List, [], ◌∷◌, none, some, true, ◌≡◌}

-- A log, newest first, in which each buffer that could be locked is drawn with its size, unlocked and
-- announced to the server, in this order and with no other call in between, and in which nothing else
-- is drawn, unlocked or announced.
pub data IsDrawn (pf : Platform) : List Event → Type 0 where
  at_start : IsDrawn pf []
  quietly : (e : Event) {l : List Event} → is_quiet e ≡ true → IsDrawn pf l → IsDrawn pf (e ∷ l)
  missed : {l : List Event} → pf.next_buffer l ≡ none → IsDrawn pf l → IsDrawn pf (lock_buffer ∷ l)
  drawn :
      (w h : ℕ) {l : List Event}
      → pf.next_buffer l ≡ some (w, h)
      → IsDrawn pf l
      → IsDrawn pf (add_changed w h ∷ unlock_buffer w h ∷ image_rect w h ∷ lock_buffer ∷ l)

pub IsDrawn-Steady :
    (k : Kernel) (pf : Platform) → Steady k pf (λ fresh. true) (λ o l. IsDrawn pf l)
IsDrawn-Steady k pf = record {
  begins = at_start;
  constructs = λ fresh o l h s. s;
  stops = λ i l s. s;
  configures = λ w h touch relative i l s. s;
  types = λ down keysym i l s. s;
  points = λ mask x y i l s. s;
  emits = λ e o l quiet s. quietly e quiet s;
  misses = λ o l none_there s. missed none_there s;
  draws = λ w h o l there s. drawn w h there s;
}
