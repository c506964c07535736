-- ===== src/Jni.antt =====
-- The strings that src/vncflinger/main.cpp and src/audiostreamer/audiostreamer.cpp take from Java and
-- give to it. The Java machine is not part of the program: `Locals` has what a native method holds of
-- it, and a Java string is what `GetStringUTFChars` gives, which has no NUL inside.
pub mod Balance
mod Tests
use packages_services_vnc_fl.Audio.Args.{Arg}
use packages_services_vnc_fl.Prelude.{
  ℕ, List, [], ◌∷◌, ◌+◌, ◌==◌, if◌then◌else◌, ltb, length, Bool, false,
}

-- The number of the next object, the local references that are live and the most that were live at
-- once, the strings that are pinned, and the strings that `strdup` made, of which none is freed.
pub record Locals : Type 0 where
  pub next : ℕ
  pub refs : List ℕ
  pub peak : ℕ
  pub pinned : List ℕ
  pub copies : ℕ

abbrev pub larger : ℕ → ℕ → ℕ
larger a b = if ltb a b then b else a

-- The list without the first entry that is `x`.
abbrev pub remove : ℕ → List ℕ → List ℕ
remove x [] = []
remove x (y ∷ ys) = if x == y then ys else y ∷ remove x ys

-- A call that returns a local reference, such as `GetObjectArrayElement` and `NewStringUTF`.
unfoldable pub new_ref : Locals → Locals × ℕ
new_ref l = (
  record l { next = l.next + 1; refs = l.next ∷ l.refs; peak = larger l.peak (length l.refs + 1) },
  l.next,
)

unfoldable pub delete_local_ref : ℕ → Locals → Locals
delete_local_ref o l = record l { refs = remove o l.refs }

unfoldable pub get_string_utf_chars : Locals → Locals × ℕ
get_string_utf_chars l = (record l { next = l.next + 1; pinned = l.next ∷ l.pinned }, l.next)

unfoldable pub release_string_utf_chars : ℕ → Locals → Locals
release_string_utf_chars chars l = record l { pinned = remove chars l.pinned }

-- A C string ends before its first NUL.
unfoldable pub c_string : Arg → Arg
c_string [] = []
c_string (b ∷ bs) = if b == 0 then [] else b ∷ c_string bs

unfoldable pub strdup : Arg → Locals → Locals × Arg
unfolding c_string
strdup text l = (record l { copies = l.copies + 1 }, c_string text)

-- One round of the loop over the arguments.
unfoldable pub copy_argument : Arg → Locals → Locals × Arg
unfolding new_ref get_string_utf_chars strdup release_string_utf_chars delete_local_ref
copy_argument text l =
    let (l1, o) = new_ref l in
    let (l2, chars) = get_string_utf_chars l1 in
    let (l3, copy) = strdup text l2 in
    (delete_local_ref o (release_string_utf_chars chars l3), copy)

unfoldable pub copy_loop : List Arg → Locals → Locals × List Arg
unfolding copy_argument
copy_loop [] l = (l, [])
copy_loop (text ∷ texts) l =
    let (l1, copy) = copy_argument text l in
    let (l2, copies) = copy_loop texts l1 in (l2, copy ∷ copies)

-- `argv` of the Java array `array`, which is deleted at the end.
unfoldable pub copy_arguments : ℕ → List Arg → Locals → Locals × List Arg
unfolding copy_loop delete_local_ref
copy_arguments array texts l =
    let (l1, argv) = copy_loop texts l in (delete_local_ref array l1, argv)

unfoldable pub run_jni_callback_set_clipboard : Locals → Locals
unfolding new_ref delete_local_ref
run_jni_callback_set_clipboard l = let (l1, jtext) = new_ref l in delete_local_ref jtext l1

-- With the text that the Java service returns.
unfoldable pub run_jni_callback_get_clipboard : Arg → Locals → Locals × Arg
unfolding new_ref get_string_utf_chars strdup release_string_utf_chars delete_local_ref
run_jni_callback_get_clipboard text l =
    let (l1, jtext) = new_ref l in
    let (l2, chars) = get_string_utf_chars l1 in
    let (l3, result) = strdup text l2 in
    (delete_local_ref jtext (release_string_utf_chars chars l3), result)
