-- ===== src/Jni/Balance.antt =====
-- What the copying of strings leaves of the Java machine.
use packages_services_vnc_fl.Audio.Args.{Arg}
use packages_services_vnc_fl.Jni.{
  remove, Locals, larger, c_string, copy_argument, copy_loop, copy_arguments,
  run_jni_callback_set_clipboard, run_jni_callback_get_clipboard,
}
use packages_services_vnc_fl.Prelude.{
  ℕ, List, [], ◌∷◌, ◌+◌, ◌≤◌, ◌==◌, ◌≡◌, false, length, arith, refl, ap,
}

-- A Java string, as its bytes.
abbrev pub HasNoNul : Arg → Type 0
HasNoNul [] = Unit {0}
HasNoNul (b ∷ bs) = (b == 0 ≡ false) × HasNoNul bs

abbrev pub HaveNoNul : List Arg → Type 0
HaveNoNul [] = Unit {0}
HaveNoNul (text ∷ texts) = HasNoNul text × HaveNoNul texts

pub c_string_lem : (text : Arg) → HasNoNul text → c_string text ≡ text
unfolding c_string
c_string_lem [] h = refl
c_string_lem (b ∷ bs) h = ground (arith, c_string_lem bs h.1)

-- References and pins are as before, at most one reference more was live at once, and `n` strings
-- were copied.
pub record Balanced (n : ℕ) (l l' : Locals) : Type 0 where
  pub refs : l'.refs ≡ l.refs
  pub pinned : l'.pinned ≡ l.pinned
  pub peak : l'.peak ≤ larger l.peak (length l.refs + 1)
  pub copies : l'.copies ≡ l.copies + n

copy_argument-Balanced : (text : Arg) (l : Locals) → Balanced 1 l (copy_argument text l).0
unfolding copy_argument
copy_argument-Balanced text l = record {
  refs = ground arith;
  pinned = ground arith;
  peak = ground arith;
  copies = refl;
}

copy_loop-Balanced :
    (texts : List Arg) (l : Locals) → Balanced (length texts) l (copy_loop texts l).0
unfolding copy_loop
copy_loop-Balanced [] l = record {
  refs = refl;
  pinned = refl;
  peak = ground arith;
  copies = omega arith;
}
copy_loop-Balanced (text ∷ texts) l =
    let first = copy_argument-Balanced text l in
    let rest = copy_loop-Balanced texts (copy_argument text l).0 in
    record {
      refs = ground arith;
      pinned = ground arith;
      peak = ground arith;
      copies = ground arith;
    }

copy_loop_lem : (texts : List Arg) (l : Locals) → HaveNoNul texts → (copy_loop texts l).1 ≡ texts
unfolding copy_loop copy_argument
copy_loop_lem [] l h = refl
copy_loop_lem (text ∷ texts) l h =
    ground (arith, c_string_lem text h.0, copy_loop_lem texts (copy_argument text l).0 h.1)

-- The arguments reach `desktopSetup` and `audio_main` unchanged. The array's reference is given up, and
-- every other reference and every pin is as it was before; however many arguments there are, at most
-- one local reference more than before was live at once. A copy of each argument stays in memory.
pub copy_arguments_lem :
    (array : ℕ) (texts : List Arg) (l : Locals)
    → HaveNoNul texts
    → let (l', argv) = copy_arguments array texts l in
      (argv ≡ texts)
      × (l'.refs ≡ remove array l.refs)
      × (l'.pinned ≡ l.pinned)
      × (l'.peak ≤ larger l.peak (length l.refs + 1))
      × (l'.copies ≡ l.copies + length texts)
unfolding copy_arguments
copy_arguments_lem array texts l h =
    let b = copy_loop-Balanced texts l in
    (copy_loop_lem texts l h, ap (remove array) b.refs, b.pinned, b.peak, b.copies)

-- The callback that gives Java a text leaves references and pins as they were and copies nothing. The
-- one that asks Java for its text does so too and returns that very text, in a copy that stays in
-- memory, since no caller frees it. Neither needs more than one local reference.
pub clipboard_callbacks-Balanced :
    (text : Arg) (l : Locals)
    → HasNoNul text
    → let (asked, result) = run_jni_callback_get_clipboard text l in
      Balanced 0 l (run_jni_callback_set_clipboard l) × Balanced 1 l asked × (result ≡ text)
unfolding run_jni_callback_set_clipboard run_jni_callback_get_clipboard
clipboard_callbacks-Balanced text l h = (
  record { refs = ground arith; pinned = refl; peak = ground arith; copies = omega arith },
  record { refs = ground arith; pinned = ground arith; peak = ground arith; copies = refl },
  c_string_lem text h,
)
