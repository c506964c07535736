-- ===== src/Main/Process/Typing.antt =====
-- A viewer's keys, from the RFB server through the desktop to the kernel.
use packages_services_vnc_fl.Main.Arguments.{Params}
use packages_services_vnc_fl.Main.Process.{
  Process, Entry, serves, run_entries, enter, serve_call, with_env,
}
use packages_services_vnc_fl.Pixels.{Floats}
use packages_services_vnc_fl.Input.Kernel.{Kernel, Device}
use packages_services_vnc_fl.Input.Keyboard.{key_event}
use packages_services_vnc_fl.Input.Keyboard.Actions.{Actions}
use packages_services_vnc_fl.Input.Keyboard.Layout.{typed}
use packages_services_vnc_fl.Input.Keyboard.Text.{
  type_text, type_text-Writes, text_actions, typed-text_actions, IsPrintable,
}
use packages_services_vnc_fl.Input.Writes.{key_writes}
use packages_services_vnc_fl.Desktop.State.{Desktop, Platform}
use packages_services_vnc_fl.Desktop.Server.{desktop_key_event}
use packages_services_vnc_fl.Desktop.History.{make_call, types}
use packages_services_vnc_fl.Prelude.{
  ℕ, List, [], ◌∷◌, ◌++◌, Bool, true, false, Option, some, ◌≡◌, refl, ap, ◌∙◌, subst, sym,
}

module _ (ps : Params) (fs : Floats) (k : Kernel) (pf : Platform) where
  open fs use {Float}

  -- The calls of the RFB server for a text that is typed key by key.
  abbrev pub typing : List ℕ → List (Entry ps fs k pf)
  typing [] = []
  typing (c ∷ cs) = serves (types c true) ∷ serves (types c false) ∷ typing cs

  -- The process `p` with the desktop `d` and its input device `i`.
  abbrev pub with_input : Process ps fs k pf → Desktop Float → Device → Process ps fs k pf
  with_input p d i = record p { desktop = some (record d { input = some i }) }

  pub types-with_input :
      (c : ℕ) (down : Bool) (p : Process ps fs k pf) (d : Desktop Float) (i : Device)
      → p.env ≡ true
      → enter ps fs k pf (serves (types c down)) (with_input p d i)
        ≡ some (with_input p d (key_event k down c i).0)
  unfolding enter serve_call with_env make_call desktop_key_event
  types-with_input c down p d i h = rw h

  typing-with_input :
      (text : List ℕ) (p : Process ps fs k pf) (d : Desktop Float) (i : Device)
      → p.env ≡ true
      → run_entries ps fs k pf (typing text) (with_input p d i)
        ≡ some (with_input p d (type_text k text i))
  unfolding run_entries type_text
  typing-with_input [] p d i h = refl
  typing-with_input (c ∷ cs) p d i h =
      let pressed = (key_event k true c i).0 in
      let released = (key_event k false c pressed).0 in
      rw (types-with_input c true p d i h, run_entries)
        (rw (types-with_input c false p d pressed h, run_entries)
          (typing-with_input cs p d released h))

  pub with_input_self :
      (p : Process ps fs k pf) (d : Desktop Float) (i : Device)
      → p.desktop ≡ some d
      → d.input ≡ some i
      → p ≡ with_input p d i
  with_input_self p d i hd hi =
      ap (λ (o : Option (Desktop Float)). record p { desktop = o })
        (hd ∙ ap (λ (x : Option Device). some (record d { input = x })) hi)

  -- On a process with `gEnv` set and a desktop whose input device is open, a printable ASCII text
  -- that a viewer types, each key pressed and released before the next one, goes through with no
  -- null pointer used, changes nothing of the process but the log of the input device, and adds key
  -- writes to it that a US keyboard, with Shift and Alt up before them, reads as that very text.
  pub viewer_types_text :
      (text : List ℕ) (p : Process ps fs k pf) (d : Desktop Float) (i : Device)
      → p.env ≡ true
      → p.desktop ≡ some d
      → d.input ≡ some i
      → i.opened ≡ true
      → IsPrintable text
      → (j : Device) × (run_entries ps fs k pf (typing text) p ≡ some (with_input p d j))
        × (j ≡ record i { calls = j.calls })
        × (acts : Actions) × (key_writes j.calls ≡ key_writes i.calls ++ acts)
        × (typed acts ≡ text)
  viewer_types_text text p d i env hd hi opened printable =
      let w = type_text-Writes k text i opened in
      let same = with_input_self p d i hd hi in
      (
        type_text k text i,
        subst
            (λ q.
              run_entries ps fs k pf (typing text) q ≡ some (with_input p d (type_text k text i)))
            (sym same) (typing-with_input text p d i env),
        w.framed,
        text_actions text,
        w.written,
        typed-text_actions text printable,
      )
