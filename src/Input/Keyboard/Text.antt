-- ===== src/Input/Keyboard/Text.antt =====
-- A text that is typed key by key, and keys that overlap.
use packages_services_vnc_fl.Prelude.{
  ℕ, ◌+◌, ◌-◌, ◌<◌, ◌≡◌, refl, Bool, true, false, List, [], ◌∷◌, ◌++◌, arith, ◌==◌, ◌&&◌, not,
  if◌then◌else◌, checked, test-of_checked, ◌≤◌, ap, ◌∙◌,
}
use packages_services_vnc_fl.Input.Codes.{key_leftshift, key_leftalt}
use packages_services_vnc_fl.Input.Keyboard.{
  fix_keysym, scan_code, need_shift, lookup_key, lookup_symbol, lookup_latin1, key_event,
}
use packages_services_vnc_fl.Input.Keyboard.Actions.{
  Actions, key_actions, dispatch_actions, direct_actions, basic_actions, latin_actions,
  symbol_actions,
}
use packages_services_vnc_fl.Input.Keyboard.Layout.{
  typed, typed_from, us_char, types_one, types_one-eq,
}
use packages_services_vnc_fl.Input.Tables.{
  keysym_to_ascii, dead_chars_to_alt_char, latin1_to_dead_chars, qwerty,
  spicial_keysym_to_direct_key, symbol_keysym_to_direct_key,
}
use packages_services_vnc_fl.Input.Kernel.{Kernel, Device}
use packages_services_vnc_fl.Input.Keyboard.Balance.{pressed, press_release-Writes}
use packages_services_vnc_fl.Input.Writes.{held, Writes, Writes-refl, Writes-trans}

pub typed_from-append :
    (shift alt : Bool) (xs ys : Actions)
    → typed_from shift alt (xs ++ ys)
      ≡ typed_from shift alt xs
        ++ typed_from (held key_leftshift shift xs) (held key_leftalt alt xs) ys
unfolding typed_from held
typed_from-append shift alt [] ys = refl
typed_from-append shift alt ((code, down) ∷ xs) ys =
    let ih =
      typed_from-append (if code == key_leftshift then down else shift)
        (if code == key_leftalt then down else alt) xs ys in
    ground (arith, ih)

-- The press and the release of one key.
abbrev pub stroke : ℕ → Actions
stroke c = key_actions true c ++ key_actions false c

-- A stroke types its character alone and leaves Shift and Alt up.
strikes : ℕ → Bool
strikes n =
    let acts = stroke (n + 32) in
    types_one (n + 32) (typed acts)
    && (not (held key_leftshift false acts) && not (held key_leftalt false acts))

strikes_table : checked strikes 95 ≡ true
unfolding strikes held types_one typed typed_from us_char key_actions dispatch_actions
    direct_actions basic_actions latin_actions symbol_actions fix_keysym scan_code need_shift
    lookup_key lookup_symbol lookup_latin1 keysym_to_ascii dead_chars_to_alt_char
    latin1_to_dead_chars qwerty spicial_keysym_to_direct_key symbol_keysym_to_direct_key checked
strikes_table = refl

record Stroke (c : ℕ) : Type 0 where
  pub types : typed (stroke c) ≡ c ∷ []
  pub shift_up : held key_leftshift false (stroke c) ≡ false
  pub alt_up : held key_leftalt false (stroke c) ≡ false

strikes-Stroke : (n : ℕ) → strikes n ≡ true → Stroke (n + 32)
unfolding strikes
strikes-Stroke n h = record {
  types = types_one-eq (n + 32) _ (ground arith);
  shift_up = ground arith;
  alt_up = ground arith;
}

printable-Stroke : (c : ℕ) → 32 ≤ c → c < 127 → Stroke c
printable-Stroke c lo hi =
    let e : c - 32 + 32 ≡ c = omega arith in
    rw e at
      (strikes-Stroke (c - 32) (test-of_checked strikes 95 (c - 32) (omega arith) strikes_table))

abbrev pub IsPrintable : List ℕ → Type 0
IsPrintable [] = Unit {0}
IsPrintable (c ∷ cs) = (32 ≤ c) × (c < 127) × IsPrintable cs

abbrev pub text_actions : List ℕ → Actions
text_actions [] = []
text_actions (c ∷ cs) = stroke c ++ text_actions cs

pub typed-text_actions : (text : List ℕ) → IsPrintable text → typed (text_actions text) ≡ text
unfolding typed
typed-text_actions [] h = refl
typed-text_actions (c ∷ cs) h =
    let s = printable-Stroke c h.0 h.1 in
    typed_from-append false false (stroke c) (text_actions cs)
    ∙ rw (s.shift_up, s.alt_up, s.types) (ap (λ l. c ∷ l) (typed-text_actions cs h.2))

-- Each key of a text is pressed and released before the next one.
unfoldable pub type_text : Kernel → List ℕ → Device → Device
type_text k [] d = d
type_text k (c ∷ cs) d = type_text k cs (key_event k false c (key_event k true c d).0).0

pub type_text-Writes :
    (k : Kernel) (text : List ℕ) (d : Device)
    → d.opened ≡ true
    → Writes d (text_actions text) (type_text k text d)
unfolding type_text pressed
type_text-Writes k [] d h = Writes-refl d
type_text-Writes k (c ∷ cs) d h =
    let e = (key_event k false c (key_event k true c d).0).0 in
    let w = press_release-Writes k c d h in
    let opened = ap (λ (r : Device). r.opened) w.framed ∙ h in
    Writes-trans d e (type_text k cs e) _ _ w (type_text-Writes k cs e opened)
