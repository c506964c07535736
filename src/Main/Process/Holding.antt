-- ===== src/Main/Process/Holding.antt =====
-- The keys that a viewer holds, from the RFB server through the desktop to the kernel.
use packages_services_vnc_fl.Main.Arguments.{Params}
use packages_services_vnc_fl.Main.Process.{Process, Entry, serves, run_entries}
use packages_services_vnc_fl.Main.Process.Typing.{with_input, types-with_input, with_input_self}
use packages_services_vnc_fl.Pixels.{Floats}
use packages_services_vnc_fl.Input.Kernel.{Kernel, Device}
use packages_services_vnc_fl.Input.Keyboard.{key_event}
use packages_services_vnc_fl.Input.Keyboard.Balance.{touches}
use packages_services_vnc_fl.Input.Keyboard.Released.{
  KeyEvents, send_keys, keys_actions, lets_all_go, overlapping_keys_balanced,
}
use packages_services_vnc_fl.Input.Writes.{held, key_writes}
use packages_services_vnc_fl.Desktop.State.{Desktop, Platform}
use packages_services_vnc_fl.Desktop.History.{types}
use packages_services_vnc_fl.Prelude.{
  ℕ, List, [], ◌∷◌, true, false, not, ◌&&◌, some, ◌≡◌, refl, subst, sym,
}

module _ (ps : Params) (fs : Floats) (k : Kernel) (pf : Platform) where
  open fs use {Float}

  -- The calls of the RFB server for the key events of a viewer.
  abbrev pub sending : KeyEvents → List (Entry ps fs k pf)
  sending [] = []
  sending ((down, ks) ∷ es) = serves (types ks down) ∷ sending es

  sending-with_input :
      (es : KeyEvents) (p : Process ps fs k pf) (d : Desktop Float) (i : Device)
      → p.env ≡ true
      → run_entries ps fs k pf (sending es) (with_input ps fs k pf p d i)
        ≡ some (with_input ps fs k pf p d (send_keys k es i))
  unfolding run_entries send_keys
  sending-with_input [] p d i h = refl
  sending-with_input ((down, ks) ∷ es) p d i h =
      rw (types-with_input ps fs k pf ks down p d i h, run_entries)
        (sending-with_input es p d (key_event k down ks i).0 h)

  -- On a process with `gEnv` set and a desktop whose input device is open, any sequence of a viewer's
  -- key events in which each press is followed at some time by a release of its keysym, however the
  -- keys overlap, goes through with no null pointer used, changes nothing of the process but the input
  -- device, and leaves exactly those keys down that were down before and that none of the events
  -- wrote: every key that was pressed (Shift, Alt and the chords of accents included) is up again.
  pub viewer_lets_go :
      (es : KeyEvents) (p : Process ps fs k pf) (d : Desktop Float) (i : Device)
      → p.env ≡ true
      → p.desktop ≡ some d
      → d.input ≡ some i
      → i.opened ≡ true
      → lets_all_go es ≡ true
      → (j : Device) × (run_entries ps fs k pf (sending es) p ≡ some (with_input ps fs k pf p d j))
        × ((code : ℕ)
            → held code false (key_writes j.calls)
              ≡ (held code false (key_writes i.calls) && not (touches code (keys_actions es))))
  viewer_lets_go es p d i env hd hi opened go = (
    send_keys k es i,
    subst
        (λ q.
          run_entries ps fs k pf (sending es) q
          ≡ some (with_input ps fs k pf p d (send_keys k es i)))
        (sym (with_input_self ps fs k pf p d i hd hi)) (sending-with_input es p d i env),
    λ code. overlapping_keys_balanced k es i code opened go,
  )
