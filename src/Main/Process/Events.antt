-- ===== src/Main/Process/Events.antt =====
-- What the process writes to its input device is registered, through any history of the process.
use packages_services_vnc_fl.Main.Arguments.{Params}
use packages_services_vnc_fl.Main.Process.{
  Process, Entry, enter, initializes, begins, serves, processes, ends, quits, tells_clipboard,
  sets_props, tells_cursor, run_entries, end_service, set_props,
}
use packages_services_vnc_fl.Main.Process.Rules.{follows_rules}
use packages_services_vnc_fl.Main.Process.Invariant.{IsSound}
use packages_services_vnc_fl.Main.Process.Sound.{run_entries-IsSound}
use packages_services_vnc_fl.Main.Process.Devices.{
  OfDesktop, fits_entry, all_entries_fit, serve_call-OfDesktop, process_display_events-OfDesktop,
  initialize-OfDesktop, begin_service-OfDesktop, notify_server_clipboard_changed-OfDesktop,
  notify_server_cursor_changed-OfDesktop,
}
use packages_services_vnc_fl.Pixels.{Floats}
use packages_services_vnc_fl.Input.Kernel.{Kernel, Device}
use packages_services_vnc_fl.Input.Fds.{open_fds}
use packages_services_vnc_fl.Input.Lifecycle.Owned.{fd_list}
use packages_services_vnc_fl.Input.Lifecycle.Bits.{all_registered}
use packages_services_vnc_fl.Input.Taken.Histories.{
  Heard, construct-Heard, stop-Heard, reconfigure-Heard, key_event-Heard, pointer_event-Heard,
}
use packages_services_vnc_fl.Desktop.State.{Event, Desktop, Platform}
use packages_services_vnc_fl.Desktop.History.{set_display_props}
use packages_services_vnc_fl.Desktop.Devices.{Steady}
use packages_services_vnc_fl.Prelude.Int.{ℤ}
use packages_services_vnc_fl.Prelude.{
  not, List, [], ◌∷◌, Bool, true, Option, some, none, ◌≡◌, arith, Option-cases, inl, inr, subst,
  sym,
}

-- A device whose memory says that it is closed.
abbrev pub is_closed : Device → Bool
is_closed i = not i.opened

-- Every method keeps `Heard`, and the log of the desktop does not matter.
abbrev HeardInput : Kernel → Option Device → List Event → Type 0
HeardInput k none l = Unit {0}
HeardInput k (some i) l = Heard k i

emits-HeardInput :
    (k : Kernel) (o : Option Device) (l l' : List Event) → HeardInput k o l → HeardInput k o l'
emits-HeardInput k none l l' s = tt
emits-HeardInput k (some i) l l' s = s

HeardInput-Steady : (k : Kernel) (pf : Platform) → Steady k pf is_closed (HeardInput k)
HeardInput-Steady k pf = record {
  begins = tt;
  constructs = λ fresh o l h s. construct-Heard k fresh (ground (arith, h));
  stops = λ i l s. stop-Heard k i s;
  configures = λ w h touch relative i l s. reconfigure-Heard k w h touch relative i s;
  types = λ down keysym i l s. key_event-Heard k down keysym i s;
  points = λ mask x y i l s. pointer_event-Heard k mask x y i s;
  emits = λ e o l quiet s. emits-HeardInput k o l _ s;
  misses = λ o l h s. emits-HeardInput k o l _ s;
  draws = λ w h o l there s. emits-HeardInput k o l _ s;
}

-- Every event in the log of a device was registered when it was written, and its open descriptors are
-- the one in `mFD` or none.
abbrev pub IsHeard : Kernel → Option Device → List Event → Type 0
IsHeard k none l = Unit {0}
IsHeard k (some i) l = (all_registered i.calls ≡ true) × (open_fds k i.calls ≡ fd_list i.fd)

module _ (ps : Params) (fs : Floats) (k : Kernel) (pf : Platform) where
  open fs use {Float}

  module _ (Q : Option Device → List Event → Type 0) {fits : Device → Bool}
      (s : Steady k pf fits Q) where
    set_props-OfDesktop :
        (w h r l : ℤ) (touch relative : Bool) (p : Process ps fs k pf)
        → OfDesktop Q p.desktop
        → OfDesktop Q (set_props ps fs k pf w h r l touch relative p).desktop
    unfolding set_props set_display_props
    set_props-OfDesktop w h r l touch relative p o = elim (Option-cases p.desktop) [
      | inl gone ↦ simp (gone, set_props) tt
      | inr (d, there) ↦ simp (there, set_props) (rw there at o)
    ]

    enter-OfDesktop :
        (e : Entry ps fs k pf) (p : Process ps fs k pf) {q : Process ps fs k pf}
        → fits_entry ps fs k pf fits e ≡ true
        → OfDesktop Q p.desktop
        → enter ps fs k pf e p ≡ some q
        → OfDesktop Q q.desktop
    unfolding enter end_service
    enter-OfDesktop (initializes texts created memory) p h o e =
        initialize-OfDesktop ps fs k pf Q s texts created memory p o e
    enter-OfDesktop (begins ls) p h o e = begin_service-OfDesktop ps fs k pf Q s ls p o e
    enter-OfDesktop (serves c) p h o e = serve_call-OfDesktop ps fs k pf Q s c p h o e
    enter-OfDesktop processes p h o e = process_display_events-OfDesktop ps fs k pf Q s p o e
    enter-OfDesktop ends p {q} h o e =
        let same : q.desktop ≡ none = ground (arith, e) in subst (OfDesktop Q) (sym same) tt
    enter-OfDesktop quits p {q} h o e =
        let same : q.desktop ≡ p.desktop = ground (arith, e) in subst (OfDesktop Q) (sym same) o
    enter-OfDesktop tells_clipboard p h o e =
        notify_server_clipboard_changed-OfDesktop ps fs k pf Q s p o e
    enter-OfDesktop (sets_props w hh r l touch relative) p {q} h o e =
        let after = set_props ps fs k pf w hh r l touch relative p in
        let same : q.desktop ≡ after.desktop = ground (arith, e) in
        subst (OfDesktop Q) (sym same) (set_props-OfDesktop w hh r l touch relative p o)
    enter-OfDesktop (tells_cursor icon) p h o e =
        notify_server_cursor_changed-OfDesktop ps fs k pf Q s icon p o e

    pub run_entries-OfDesktop :
        (es : List (Entry ps fs k pf)) (p : Process ps fs k pf) {q : Process ps fs k pf}
        → all_entries_fit ps fs k pf fits es ≡ true
        → OfDesktop Q p.desktop
        → run_entries ps fs k pf es p ≡ some q
        → OfDesktop Q q.desktop
    unfolding run_entries all_entries_fit
    run_entries-OfDesktop [] p {q} h o e =
        let same : q.desktop ≡ p.desktop = ground (arith, e) in subst (OfDesktop Q) (sym same) o
    run_entries-OfDesktop (x ∷ es) p h o e = elim (Option-cases (enter ps fs k pf x p)) [
      | inl gone ↦ cc (simp (gone, run_entries) at e)
      | inr (r, entered) ↦
          run_entries-OfDesktop es r (ground arith) (enter-OfDesktop x p (ground arith) o entered)
            (simp (entered, run_entries) at e)
    ]

  input-IsHeard : (o : Option Device) (l : List Event) → HeardInput k o l → IsHeard k o l
  input-IsHeard none l h = tt
  input-IsHeard (some i) l h = (h.taken, h.owned.owns)

  Heard-IsHeard :
      {F : Type 0} (o : Option (Desktop F)) → OfDesktop (HeardInput k) o → OfDesktop (IsHeard k) o
  Heard-IsHeard none h = tt
  Heard-IsHeard (some d) h = input-IsHeard d.input d.log h

  -- From a sound process with no desktop, every history of JNI calls and of calls during a service that
  -- follows the rules, and in which the memory of each new input device happens to say that it is
  -- closed, goes through; and afterwards, for every kernel, each event that the input device in use
  -- has written was registered, in type and code, since the device was opened; and its open
  -- descriptors are exactly the one that it keeps, if any.
  pub run_entries-IsHeard :
      (es : List (Entry ps fs k pf)) (p : Process ps fs k pf)
      → IsSound ps fs k pf p
      → p.desktop ≡ none
      → follows_rules ps fs k pf es p ≡ true
      → all_entries_fit ps fs k pf is_closed es ≡ true
      → (q : Process ps fs k pf) × (run_entries ps fs k pf es p ≡ some q)
        × OfDesktop (IsHeard k) q.desktop
  run_entries-IsHeard es p sound gone rules closed =
      let (q, run, t) = run_entries-IsSound ps fs k pf es p sound rules in
      let o = subst (OfDesktop (HeardInput k)) (sym gone) tt in
      (
        q,
        run,
        Heard-IsHeard q.desktop
            (run_entries-OfDesktop (HeardInput k) (HeardInput-Steady k pf) es p closed o run),
      )
