-- ===== src/Input/Writes.antt =====
-- What a log of kernel calls says about keys: the EV_KEY writes in it, and which keys they leave
-- held down.
use packages_services_vnc_fl.Prelude.{
  ℕ, ◌≡◌, refl, ap, ◌∙◌, Bool, true, false, List, [], ◌∷◌, ◌++◌, sym, inl, inr, Bool-cases,
  append_assoc, append-nil, ◌==◌, if◌then◌else◌,
}
use packages_services_vnc_fl.Prelude.Int.{ℤ, pos, negsuc}
use packages_services_vnc_fl.Input.Codes.{ev_key, ev_syn, syn_report}
use packages_services_vnc_fl.Input.Kernel.{Call, Kernel, Device, InputEvent, write_event}
use packages_services_vnc_fl.Input.Inject.{inject, press, release, is_ok, do_keyboard_event}
use packages_services_vnc_fl.Input.Fds.{open_fds}

-- An EV_KEY value of 0 is a release.
abbrev pub is_down : ℤ → Bool
is_down (pos n) = if n == 0 then false else true
is_down (negsuc n) = true

abbrev pub event_writes : InputEvent → List (ℕ × Bool)
event_writes e = if e.kind == ev_key then (e.code, is_down e.value) ∷ [] else []

abbrev pub call_writes : Call → List (ℕ × Bool)
call_writes (write_event fd e) = event_writes e
call_writes _ = []

-- The key writes attempted in a log, oldest first.
unfoldable pub key_writes : List Call → List (ℕ × Bool)
key_writes [] = []
key_writes (c ∷ cs) = key_writes cs ++ call_writes c

-- `d'` is `d` with more calls logged, among them the key writes `acts` and no others.
pub record Writes (d : Device) (acts : List (ℕ × Bool)) (d' : Device) : Type 0 where
  pub written : key_writes d'.calls ≡ key_writes d.calls ++ acts
  pub framed : d' ≡ record d { calls = d'.calls }
  pub fds : (k : Kernel) → open_fds k d'.calls ≡ open_fds k d.calls

pub Writes-refl : (d : Device) → Writes d [] d
Writes-refl d = record {
  written = sym (append-nil (key_writes d.calls));
  framed = refl;
  fds = λ k. refl;
}

pub Writes-trans :
    (d e f : Device) (xs ys : List (ℕ × Bool))
    → Writes d xs e
    → Writes e ys f
    → Writes d (xs ++ ys) f
Writes-trans d e f xs ys p q = record {
  written = q.written ∙ ap (λ l. l ++ ys) p.written ∙ append_assoc (key_writes d.calls) xs ys;
  framed = q.framed ∙ ap (λ (r : Device). record r { calls = f.calls }) p.framed;
  fds = λ k. q.fds k ∙ p.fds k;
}

pub inject-Writes :
    (k : Kernel) (kind code : ℕ) (value : ℤ) (d : Device)
    → Writes d
        (event_writes (record { kind = kind; code = code; value = value }))
        (inject k kind code value d).0
unfolding inject key_writes open_fds
inject-Writes k kind code value d = record { written = refl; framed = refl; fds = λ k. refl }

syn-Writes : (k : Kernel) (d : Device) → Writes d [] (inject k ev_syn syn_report (pos 0) d).0
syn-Writes k d = inject-Writes k ev_syn syn_report (pos 0) d

key-Writes :
    (k : Kernel) (code : ℕ) (down : Bool) (d : Device)
    → Writes d ((code, down) ∷ []) ((if down then press k code else release k code) d).0
unfolding press release
key-Writes k code true d = inject-Writes k ev_key code (pos 1) d
key-Writes k code false d = inject-Writes k ev_key code (pos 0) d

-- A key event writes its key once, whatever the kernel answers.
pub do_keyboard_event-Writes :
    (k : Kernel) (code : ℕ) (down : Bool) (d : Device)
    → Writes d ((code, down) ∷ []) (do_keyboard_event k code down d).0
unfolding do_keyboard_event
do_keyboard_event-Writes k code down d =
    let d1 = (inject k ev_syn syn_report (pos 0) d).0 in
    let m = (if down then press k code else release k code) in
    let d2 = (m d1).0 in
    let p = Writes-trans d d1 d2 [] _ (syn-Writes k d) (key-Writes k code down d1) in
    elim (Bool-cases (is_ok (m d1).1)) [
      | inl e ↦ rw e (Writes-trans d d2 _ _ [] p (syn-Writes k d2))
      | inr e ↦ rw e p
    ]

-- Whether a key is down after a run of key writes, if `b` says so before it.
unfoldable pub held : ℕ → Bool → List (ℕ × Bool) → Bool
held code b [] = b
held code b ((c, down) ∷ acts) = held code (if c == code then down else b) acts

pub held-append :
    (code : ℕ) (b : Bool) (xs ys : List (ℕ × Bool))
    → held code b (xs ++ ys) ≡ held code (held code b xs) ys
unfolding held
held-append code b [] ys = refl
held-append code b ((c, down) ∷ xs) ys = held-append code (if c == code then down else b) xs ys
