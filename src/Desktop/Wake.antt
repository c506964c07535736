-- ===== src/Desktop/Wake.antt =====
-- The clipboard flag and the event descriptor, between the service's threads, which notify of changes,
-- and the event loop, which announces them to the viewers; no lock is held, so that each access is a
-- step of its own. Viewers come and go, and `mServer` is set, in the loop itself, outside of a round's
-- processing of the display. The cursor and the frames, which a round processes before the clipboard, are
-- left out.
pub mod Announced
mod Tests
use packages_services_vnc_fl.Prelude.{
  inr, true, List, ◌≡◌, false, inl, Bool, [], ℕ, suc, arith, ◌<◌, ◌+◌, ◌∷◌, ◌⊎◌, refl, Bool-cases,
  zero, ◌==◌, ◌∙◌, ◌||◌,
}

-- Where the loop stands: before its `read` of the descriptor, before the test of `clipboardChanged`,
-- before its reset, and before the call of `announceClipboard`.
pub data Place : Type 0 where
  reading testing clearing announcing : Place

-- A change, an announcement, a round that clears the flag and announces nothing, as `mServer` is not
-- set, and the setting of `mServer`.
pub data Change : Type 0 where
  changed announced dropped started : Change

-- `writing` counts the threads between `clipboardChanged = true` and the `write` in `notify`;
-- `counter` is the descriptor's; `history` is newest first.
pub record Shared : Type 0 where
  pub flag : Bool
  pub writing : ℕ
  pub counter : ℕ
  pub place : Place
  pub has_server : Bool
  pub viewers : Bool
  pub history : List Change

pub data Step : Shared → Shared → Type 0 where
  change :
      (s : Shared)
      → Step s (record s { flag = true; writing = suc s.writing; history = changed ∷ s.history })
  write :
      (s : Shared) (n : ℕ)
      → s.writing ≡ suc n
      → Step s (record s { writing = n; counter = suc s.counter })
  read :
      (s : Shared)
      → s.place ≡ reading
      → s.viewers ≡ true
      → 0 < s.counter
      → Step s (record s { counter = 0; place = testing })
  test_unset :
      (s : Shared) → s.place ≡ testing → s.flag ≡ false → Step s (record s { place = reading })
  test_set :
      (s : Shared) → s.place ≡ testing → s.flag ≡ true → Step s (record s { place = clearing })
  clear : (s : Shared) → s.place ≡ clearing → Step s (record s { flag = false; place = announcing })
  announce :
      (s : Shared)
      → s.place ≡ announcing
      → s.has_server ≡ true
      → Step s (record s { place = reading; history = announced ∷ s.history })
  announce_nothing :
      (s : Shared)
      → s.place ≡ announcing
      → s.has_server ≡ false
      → Step s (record s { place = reading; history = dropped ∷ s.history })
  connect : (s : Shared) → s.place ≡ reading → Step s (record s { viewers = true })
  disconnect : (s : Shared) → s.place ≡ reading → Step s (record s { viewers = false })
  start :
      (s : Shared)
      → s.place ≡ reading
      → s.viewers ≡ true
      → Step s (record s { has_server = true; history = started ∷ s.history })

-- Before the first change, the first viewer and the start of the desktop.
abbrev pub quiet_start : Shared
quiet_start = record {
  flag = false;
  writing = 0;
  counter = 0;
  place = reading;
  has_server = false;
  viewers = false;
  history = [];
}

pub data Reach : Shared → Type 0 where
  here : Reach quiet_start
  next : {s t : Shared} → Reach s → Step s t → Reach t

-- The loop is past its `read` and will still see the flag.
abbrev pub will_see : Place → Bool
will_see reading = false
will_see testing = true
will_see clearing = true
will_see announcing = false

abbrev pub is_announcing : Place → Bool
is_announcing announcing = true
is_announcing _ = false

-- A change is newer than the last announcement and the last drop.
abbrev pub owes : List Change → Bool
owes [] = false
owes (changed ∷ _) = true
owes (announced ∷ _) = false
owes (dropped ∷ _) = false
owes (started ∷ h) = owes h

abbrev pub has_started : List Change → Bool
has_started [] = false
has_started (changed ∷ h) = has_started h
has_started (announced ∷ h) = has_started h
has_started (dropped ∷ h) = has_started h
has_started (started ∷ _) = true

-- A drop is newer than a setting of `mServer`.
abbrev pub drops_late : List Change → Bool
drops_late [] = false
drops_late (changed ∷ h) = drops_late h
drops_late (announced ∷ h) = drops_late h
drops_late (dropped ∷ h) = has_started h || drops_late h
drops_late (started ∷ h) = drops_late h

record IsAwake (s : Shared) : Type 0 where
  seen : s.flag ≡ true → (0 < s.writing + s.counter) ⊎ (will_see s.place ≡ true)
  owed : owes s.history ≡ true → (s.flag ≡ true) ⊎ (is_announcing s.place ≡ true)
  set : has_started s.history ≡ s.has_server
  timely : drops_late s.history ≡ false

Step-IsAwake : {s t : Shared} → Step s t → IsAwake s → IsAwake t
Step-IsAwake (change s) a = record {
  seen = λ f. inl (omega arith);
  owed = λ o. inl refl;
  set = a.set;
  timely = a.timely;
}
Step-IsAwake (write s n e) a = record {
  seen = λ f. inl (omega arith);
  owed = a.owed;
  set = a.set;
  timely = a.timely;
}
Step-IsAwake (read s e v h) a = record {
  seen = λ f. inr refl;
  owed = λ o. ground (arith, a.owed o);
  set = a.set;
  timely = a.timely;
}
Step-IsAwake (test_unset s e f) a = record {
  seen = λ g. cc;
  owed = λ o. ground (arith, a.owed o);
  set = a.set;
  timely = a.timely;
}
Step-IsAwake (test_set s e f) a = record {
  seen = λ g. inr refl;
  owed = λ o. inl f;
  set = a.set;
  timely = a.timely;
}
Step-IsAwake (clear s e) a = record {
  seen = λ g. cc;
  owed = λ o. inr refl;
  set = a.set;
  timely = a.timely;
}
Step-IsAwake (announce s e v) a = record {
  seen = λ f. ground (arith, a.seen f);
  owed = λ o. cc;
  set = a.set;
  timely = a.timely;
}
Step-IsAwake (announce_nothing s e v) a = record {
  seen = λ f. ground (arith, a.seen f);
  owed = λ o. cc;
  set = a.set;
  timely = ground (arith, a.set, a.timely);
}
Step-IsAwake (connect s e) a = record {
  seen = a.seen;
  owed = a.owed;
  set = a.set;
  timely = a.timely;
}
Step-IsAwake (disconnect s e) a = record {
  seen = a.seen;
  owed = a.owed;
  set = a.set;
  timely = a.timely;
}
Step-IsAwake (start s e v) a = record {
  seen = a.seen;
  owed = a.owed;
  set = refl;
  timely = a.timely;
}

Reach-IsAwake : {s : Shared} → Reach s → IsAwake s
Reach-IsAwake here = record { seen = λ f. cc; owed = λ o. cc; set = refl; timely = refl }
Reach-IsAwake (next r st) = Step-IsAwake st (Reach-IsAwake r)

-- In every interleaving of any number of notifying threads with the event loop, where viewers come and
-- go and the desktop is started at any time, a change is lost only before `mServer` is set: no round
-- that clears the flag and announces nothing comes after that; and where no thread is between the flag
-- and its `write`, the descriptor's counter is 0 and the loop waits, the flag is down and no change is
-- newer than the last announcement, or than the last such round.
pub no_change_lost :
    {s : Shared}
    → Reach s
    → s.writing ≡ 0
    → s.counter ≡ 0
    → s.place ≡ reading
    → (s.flag ≡ false) × (owes s.history ≡ false) × (drops_late s.history ≡ false)
no_change_lost {s} r w c p =
    let a = Reach-IsAwake r in
    let down : s.flag ≡ false = elim (Bool-cases s.flag) [
      | inl up ↦ ground (arith, a.seen up)
      | inr d ↦ d
    ] in
    (
      down,
      elim (Bool-cases (owes s.history)) [ inl o ↦ ground (arith, a.owed o) | inr d ↦ d ],
      a.timely,
    )
