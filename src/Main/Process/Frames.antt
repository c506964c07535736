-- ===== src/Main/Process/Frames.antt =====
-- The frames of the process, through any history of it.
use packages_services_vnc_fl.Main.Arguments.{Params}
use packages_services_vnc_fl.Main.Process.{Process, Entry, run_entries, serves}
use packages_services_vnc_fl.Main.Process.Rules.{follows_rules}
use packages_services_vnc_fl.Main.Process.Invariant.{IsSound}
use packages_services_vnc_fl.Main.Process.Sound.{run_entries-IsSound}
use packages_services_vnc_fl.Main.Process.Devices.{OfDesktop, fits_entry, all_entries_fit}
use packages_services_vnc_fl.Main.Process.Events.{run_entries-OfDesktop}
use packages_services_vnc_fl.Pixels.{Floats}
use packages_services_vnc_fl.Input.Kernel.{Kernel}
use packages_services_vnc_fl.Desktop.State.{Platform}
use packages_services_vnc_fl.Desktop.History.{DesktopCall}
use packages_services_vnc_fl.Desktop.Devices.Histories.{fits_memory}
use packages_services_vnc_fl.Desktop.Drawn.{IsDrawn, IsDrawn-Steady}
use packages_services_vnc_fl.Prelude.{List, [], ◌∷◌, true, some, none, ◌≡◌, refl, arith, subst, sym}

module _ (ps : Params) (fs : Floats) (k : Kernel) (pf : Platform) where
  open fs use {Float}

  any_memory : (c : DesktopCall Float) → fits_memory (λ fresh. true) c ≡ true
  any_memory c = ground arith

  any_entry : (e : Entry ps fs k pf) → fits_entry ps fs k pf (λ fresh. true) e ≡ true
  any_entry (serves c) = any_memory c
  any_entry e = refl

  any_entries :
      (es : List (Entry ps fs k pf)) → all_entries_fit ps fs k pf (λ fresh. true) es ≡ true
  unfolding all_entries_fit
  any_entries [] = refl
  any_entries (e ∷ es) = ground (arith, any_entry e, any_entries es)

  -- From a sound process with no desktop, every history of JNI calls and of calls during a service that
  -- follows the rules goes through, and afterwards the log of the desktop in use is one in which each
  -- buffer that could be locked was drawn with its size, then unlocked and then announced to the
  -- server, with no other call of the log in between, and in which nothing else was drawn, unlocked or
  -- announced: no buffer of the frame consumer is kept or given back twice.
  pub run_entries-IsDrawn :
      (es : List (Entry ps fs k pf)) (p : Process ps fs k pf)
      → IsSound ps fs k pf p
      → p.desktop ≡ none
      → follows_rules ps fs k pf es p ≡ true
      → (q : Process ps fs k pf) × (run_entries ps fs k pf es p ≡ some q)
        × OfDesktop (λ o l. IsDrawn pf l) q.desktop
  run_entries-IsDrawn es p sound gone rules =
      let (q, run, t) = run_entries-IsSound ps fs k pf es p sound rules in
      let none_yet = subst (OfDesktop (λ o l. IsDrawn pf l)) (sym gone) tt in
      (
        q,
        run,
        run_entries-OfDesktop ps fs k pf (λ o l. IsDrawn pf l) (IsDrawn-Steady k pf) es p
            (any_entries es) none_yet run,
      )
