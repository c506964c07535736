-- ===== src/Jni/Tests.antt =====
-- Two arguments from Java, and a text of the clipboard.
use packages_services_vnc_fl.Prelude.{List, ◌≡◌, ◌∷◌, [], ◌≤◌, refl}
use packages_services_vnc_fl.Jni.{
  run_jni_callback_get_clipboard, copy_arguments, Locals, run_jni_callback_set_clipboard,
}
use packages_services_vnc_fl.Audio.Args.{Arg}
use packages_services_vnc_fl.Jni.Balance.{
  Balanced, copy_arguments_lem, clipboard_callbacks-Balanced,
}

abbrev held : Locals
held = record { next = 8; refs = 7 ∷ 6 ∷ []; peak = 2; pinned = []; copies = 0 }

abbrev two_texts : List Arg
two_texts = (b'v' ∷ b'n' ∷ b'c' ∷ []) ∷ (b'-' ∷ b'v' ∷ []) ∷ []

copy_arguments_lem_test :
    let (l', argv) = copy_arguments 7 two_texts held in
    (argv ≡ two_texts) × (l'.refs ≡ 6 ∷ []) × (l'.pinned ≡ []) × (l'.peak ≤ 3) × (l'.copies ≡ 2)
copy_arguments_lem_test =
    copy_arguments_lem 7 two_texts held ((refl, (refl, (refl, tt))), ((refl, (refl, tt)), tt))

clipboard_callbacks-Balanced_test :
    let (asked, result) = run_jni_callback_get_clipboard (b'h' ∷ b'i' ∷ []) held in
    Balanced 0 held (run_jni_callback_set_clipboard held)
    × Balanced 1 held asked
    × (result ≡ b'h' ∷ b'i' ∷ [])
clipboard_callbacks-Balanced_test =
    clipboard_callbacks-Balanced (b'h' ∷ b'i' ∷ []) held (refl, (refl, tt))
