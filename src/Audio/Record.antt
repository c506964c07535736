-- ===== src/Audio/Record.antt =====
-- `audiostreamer_init` and `audiostreamer_record_thread`. AudioRecord and `malloc` are not part of the
-- program: whether they succeed, and what each read returns, are arguments.
use packages_services_vnc_fl.Sockets.Net.{Net, NetCall}
use packages_services_vnc_fl.Sockets.Create.{close_socket}
use packages_services_vnc_fl.Sockets.Send.{send_data_socket}
use packages_services_vnc_fl.Prelude.{
  ℕ, Bool, true, false, List, [], ◌∷◌, none, some, Option, if◌then◌else◌,
}
use packages_services_vnc_fl.Prelude.Int.{ℤ}

-- `pAudioRecord`: NULL, or an object with the result of its `initCheck`.
pub data Recorder : Type 0 where
  null : Recorder
  present : Bool → Recorder

-- The global is set before `initCheck` is looked at; true is the result 0.
unfoldable pub audiostreamer_init : Bool → Recorder × Bool
audiostreamer_init check = (present check, check)

pub data AudioCall : Type 0 where
  start_record stop_record : AudioCall

pub record Ended : Type 0 where
  pub recorder : Recorder
  pub audio : List AudioCall
  pub calls : List NetCall

-- `while (gRunning)`: one entry for each round in which `gRunning` is seen true, with what `read`
-- filled in; an empty one is a result of 0 or less. `none` stands for an endless send.
unfoldable pub record_loop : Net → ℤ → List (List ℕ) → List NetCall → Option (List NetCall)
record_loop net sock [] cs = some cs
record_loop net sock ([] ∷ reads) cs = record_loop net sock reads cs
record_loop net sock ((x ∷ xs) ∷ reads) cs = elim (send_data_socket net sock (x ∷ xs) 0 cs) [
  | none ↦ none
  | some (cs', done) ↦ elim done [ true ↦ record_loop net sock reads cs' | false ↦ some cs' ]
]

-- From `pAudioRecord->start()` to the end.
stream : Net → ℤ → List (List ℕ) → Recorder → List AudioCall → List NetCall → Option Ended
stream net sock reads recorder audio cs = elim (record_loop net sock reads cs) [
  | none ↦ none
  | some cs' ↦ some (record {
    recorder = recorder;
    audio = stop_record ∷ start_record ∷ audio;
    calls = (close_socket net sock cs').0;
  })
]

-- `malloc`, and its early return.
with_buffer :
    Net → Bool → ℤ → List (List ℕ) → Recorder → List AudioCall → List NetCall → Option Ended
unfolding stream
with_buffer net allocated sock reads recorder audio cs =
    if allocated
    then stream net sock reads recorder audio cs
    else some (record { recorder = recorder; audio = audio; calls = cs })

unfoldable pub record_thread :
    Net → Bool → Bool → ℤ → List (List ℕ) → Recorder → List AudioCall → List NetCall → Option Ended
unfolding with_buffer
record_thread net check allocated sock reads (present ok) audio cs =
    with_buffer net allocated sock reads (present ok) audio cs
record_thread net check allocated sock reads null audio cs =
    let (recorder, ready) = audiostreamer_init check in
    if ready
    then with_buffer net allocated sock reads recorder audio cs
    else some (record { recorder = recorder; audio = audio; calls = cs })
