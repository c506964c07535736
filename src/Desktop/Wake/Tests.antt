-- ===== src/Desktop/Wake/Tests.antt =====
-- The notifications of a desktop that changes once before its start and once after.
use packages_services_vnc_fl.Prelude.{arith, true, ◌≡◌, false, ◌∷◌, refl, []}
use packages_services_vnc_fl.Desktop.Wake.{
  owes, Reach, Shared, reading, no_change_lost, next, write, changed, here, announced, read, change,
  test_set, clear, announce, connect, start, started, dropped, announce_nothing, drops_late,
}
use packages_services_vnc_fl.Desktop.Wake.Announced.{Leads, changes, drops, change_is_announced}

-- A change that is dropped, as there is a viewer but no server.
abbrev forgotten : Shared
forgotten = record {
  flag = false;
  writing = 0;
  counter = 0;
  place = reading;
  has_server = false;
  viewers = true;
  history = dropped ∷ changed ∷ [];
}

Reach-forgotten : Reach forgotten
Reach-forgotten =
    next
      (next
        (next
          (next (next (next (next here (connect _ refl)) (change _)) (write _ 0 refl))
            (read _ refl refl (omega arith)))
          (test_set _ refl refl))
        (clear _ refl))
      (announce_nothing _ refl refl)

-- A change after the start.
abbrev noticed : Shared
noticed = record {
  flag = true;
  writing = 1;
  counter = 0;
  place = reading;
  has_server = true;
  viewers = true;
  history = changed ∷ started ∷ dropped ∷ changed ∷ [];
}

Reach-noticed : Reach noticed
Reach-noticed = next (next Reach-forgotten (start _ refl refl)) (change _)

-- That change written, read and announced.
abbrev settled : Shared
settled = record {
  flag = false;
  writing = 0;
  counter = 0;
  place = reading;
  has_server = true;
  viewers = true;
  history = announced ∷ changed ∷ started ∷ dropped ∷ changed ∷ [];
}

Reach-settled : Reach settled
Reach-settled =
    next
      (next
        (next (next (next Reach-noticed (write _ 0 refl)) (read _ refl refl (omega arith)))
          (test_set _ refl refl))
        (clear _ refl))
      (announce _ refl refl)

no_change_lost_example :
    (settled.flag ≡ false) × (owes settled.history ≡ false) × (drops_late settled.history ≡ false)
no_change_lost_example = no_change_lost Reach-settled refl refl refl

change_is_announced_example :
    (t : Shared) × Leads noticed t
    × (t.writing ≡ 0)
    × (t.counter ≡ 0)
    × (t.place ≡ reading)
    × (t.flag ≡ false)
    × (owes t.history ≡ false)
    × (changes t.history ≡ 2)
    × (drops t.history ≡ 1)
change_is_announced_example = change_is_announced Reach-noticed refl refl
