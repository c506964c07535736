-- ===== src/Desktop/Wake/Announced.antt =====
-- That every clipboard change is announced in the end.
use packages_services_vnc_fl.Desktop.Wake.{
  Step, Shared, Reach, Place, Change, changed, announced, dropped, started, reading, testing,
  clearing, announcing, read, write, test_set, test_unset, clear, announce, next, owes,
  no_change_lost,
}
use packages_services_vnc_fl.Prelude.{
  ◌∷◌, List, ◌∙◌, ℕ, ◌≡◌, suc, true, false, [], refl, zero, Bool-cases, inr, ◌==◌, inl, arith,
}

pub data Leads (s : Shared) : Shared → Type 0 where
  done : Leads s s
  more : {t u : Shared} → Leads s t → Step t u → Leads s u

Leads-trans : {s t u : Shared} → Leads s t → Leads t u → Leads s u
Leads-trans l done = l
Leads-trans l (more m st) = more (Leads-trans l m) st

Reach-Leads : {s t : Shared} → Reach s → Leads s t → Reach t
Reach-Leads r done = r
Reach-Leads r (more l st) = next (Reach-Leads r l) st

-- The numbers of changes and of drops in a history.
abbrev pub changes : List Change → ℕ
changes [] = 0
changes (changed ∷ h) = suc (changes h)
changes (announced ∷ h) = changes h
changes (dropped ∷ h) = changes h
changes (started ∷ h) = changes h

abbrev pub drops : List Change → ℕ
drops [] = 0
drops (changed ∷ h) = drops h
drops (announced ∷ h) = drops h
drops (dropped ∷ h) = suc (drops h)
drops (started ∷ h) = drops h

-- What the steps of the threads and the loop leave alone.
record Alike (s t : Shared) : Type 0 where
  viewers : t.viewers ≡ s.viewers
  has_server : t.has_server ≡ s.has_server
  same_changes : changes t.history ≡ changes s.history
  same_drops : drops t.history ≡ drops s.history

Alike-trans : {s t u : Shared} → Alike s t → Alike t u → Alike s u
Alike-trans a b = record {
  viewers = b.viewers ∙ a.viewers;
  has_server = b.has_server ∙ a.has_server;
  same_changes = b.same_changes ∙ a.same_changes;
  same_drops = b.same_drops ∙ a.same_drops;
}

-- The loop goes on to its next `read`.
record Returns (s t : Shared) : Type 0 where
  leads : Leads s t
  waits : t.place ≡ reading
  writing : t.writing ≡ s.writing
  counter : t.counter ≡ s.counter
  alike : Alike s t

announces : (s : Shared) → s.place ≡ announcing → s.has_server ≡ true → (t : Shared) × Returns s t
announces s e v = (
  _,
  record {
    leads = more done (announce s e v);
    waits = refl;
    writing = refl;
    counter = refl;
    alike = record { viewers = refl; has_server = refl; same_changes = refl; same_drops = refl };
  },
)

-- After a step that leaves these things alone.
step-Returns :
    {s u : Shared}
    → Step s u
    → u.writing ≡ s.writing
    → u.counter ≡ s.counter
    → Alike s u
    → (t : Shared) × Returns u t
    → (t : Shared) × Returns s t
step-Returns st w c a (t, r) = (
  t,
  record {
    leads = Leads-trans (more done st) r.leads;
    waits = r.waits;
    writing = r.writing ∙ w;
    counter = r.counter ∙ c;
    alike = Alike-trans a r.alike;
  },
)

returns : (s : Shared) (p : Place) → s.place ≡ p → s.has_server ≡ true → (t : Shared) × Returns s t
returns s reading e v = (
  s,
  record {
    leads = done;
    waits = e;
    writing = refl;
    counter = refl;
    alike = record { viewers = refl; has_server = refl; same_changes = refl; same_drops = refl };
  },
)
returns s announcing e v = announces s e v
returns s clearing e v =
    step-Returns (clear s e) refl refl
      record { viewers = refl; has_server = refl; same_changes = refl; same_drops = refl }
      (announces (record s { flag = false; place = announcing }) refl v)
returns s testing e v = elim (Bool-cases s.flag) [
  | inr down ↦ (
    _,
    record {
      leads = more done (test_unset s e down);
      waits = refl;
      writing = refl;
      counter = refl;
      alike = record { viewers = refl; has_server = refl; same_changes = refl; same_drops = refl };
    },
  )
  | inl up ↦
      step-Returns (test_set s e up) refl refl
        record { viewers = refl; has_server = refl; same_changes = refl; same_drops = refl }
        (step-Returns (clear (record s { place = clearing }) refl) refl refl
          record { viewers = refl; has_server = refl; same_changes = refl; same_drops = refl }
          (announces (record s { flag = false; place = announcing }) refl v))
]

-- The threads make their writes.
writes :
    (n : ℕ) (s : Shared) → s.writing ≡ n → (t : Shared) × Leads s t × (t.writing ≡ 0) × Alike s t
writes zero s e = (
  s,
  done,
  e,
  record { viewers = refl; has_server = refl; same_changes = refl; same_drops = refl },
)
writes (suc n) s e =
    let (u, l, z, h) = writes n (record s { writing = n; counter = suc s.counter }) refl in
    (
      u,
      Leads-trans (more done (write s n e)) l,
      z,
      record {
        viewers = h.viewers;
        has_server = h.has_server;
        same_changes = h.same_changes;
        same_drops = h.same_drops;
      },
    )

-- Every change is announced in the end, once there are viewers and `mServer` is set: from every such
-- reachable state some steps, with no further change and no further round that announces nothing among
-- them, lead to a state in which all is written and read, the flag is down and no change is newer than
-- the last announcement or the last such round.
pub change_is_announced :
    {s : Shared}
    → Reach s
    → s.viewers ≡ true
    → s.has_server ≡ true
    → (t : Shared) × Leads s t
      × (t.writing ≡ 0)
      × (t.counter ≡ 0)
      × (t.place ≡ reading)
      × (t.flag ≡ false)
      × (owes t.history ≡ false)
      × (changes t.history ≡ changes s.history)
      × (drops t.history ≡ drops s.history)
change_is_announced {s} r v sv =
    let (a, la, za, ha) = writes s.writing s refl in
    let (b, rb) = returns a a.place refl (ha.has_server ∙ sv) in
    let to_b = Leads-trans la rb.leads in
    let alike = Alike-trans ha rb.alike in
    elim (Bool-cases (b.counter == 0)) [
      | inl empty ↦
          let w : b.writing ≡ 0 = rb.writing ∙ za in
          let c : b.counter ≡ 0 = ground arith in
          let (f, o, _) = no_change_lost (Reach-Leads r to_b) w c rb.waits in
          (b, to_b, w, c, rb.waits, f, o, alike.same_changes, alike.same_drops)
      | inr full ↦
          let awake = record b { counter = 0; place = testing } in
          let (d, rd) = returns awake testing refl (alike.has_server ∙ sv) in
          let to_awake : Alike s awake = record {
            viewers = alike.viewers;
            has_server = alike.has_server;
            same_changes = alike.same_changes;
            same_drops = alike.same_drops;
          } in
          let step = read b rb.waits (alike.viewers ∙ v) (ground arith) in
          let to_d = Leads-trans (more to_b step) rd.leads in
          let w : d.writing ≡ 0 = rd.writing ∙ rb.writing ∙ za in
          let (f, o, _) = no_change_lost (Reach-Leads r to_d) w rd.counter rd.waits in
          let all : Alike s d = Alike-trans {t = awake} to_awake rd.alike in
          (d, to_d, w, rd.counter, rd.waits, f, o, all.same_changes, all.same_drops)
    ]
