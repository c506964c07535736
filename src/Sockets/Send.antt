-- ===== src/Sockets/Send.antt =====
-- `canSend` and `sendDataSocket` of socketmanager.cpp.
use packages_services_vnc_fl.Prelude.{
  ℕ, ◌*◌, if◌then◌else◌, leb, Bool, List, ◌/◌, Option, take, suc, ◌-◌, none, ltb, length, true,
  drop, not, some, false, ◌==◌, zero, ◌+◌, ◌≡◌, ◌<◌, arith,
}
use packages_services_vnc_fl.Sockets.Net.{Net, NetCall, M, pure, ◌>>=◌, call, select_write, send}
use packages_services_vnc_fl.Prelude.Int.{ℤ, pos_part, is_positive}

-- The `timeval` of a timeout in milliseconds.
unfoldable pub timeval : ℕ → ℕ × ℕ
timeval timeout =
    if leb 1000 timeout
    then (timeout / 1000, (timeout - timeout / 1000 * 1000) * 1000)
    else (0, timeout * 1000)

-- The descriptor is the only one that is waited for, so `select` says that it can be written.
unfoldable pub can_send : Net → ℤ → ℕ → M Bool
can_send net sock timeout = do
  ready ← call net (select_write sock (timeval timeout).0 (timeval timeout).1)
  pure (is_positive ready)

-- What is left of a buffer after `ptr += bytes`.
abbrev pub taken : ℤ → List ℕ → List ℕ
taken z rest = take (pos_part z) rest

-- `if (timeout > 0) if (!canSend(sock, timeout)) break;`
unfoldable pub ready_log : Net → ℤ → ℕ → M Bool
ready_log net sock timeout = if ltb 0 timeout then can_send net sock timeout else pure true

-- `do { … } while (1)`, where the bytes left are the list; `none` means that the fuel ran out.
unfoldable pub send_loop : Net → ℕ → ℤ → ℕ → List ℕ → List NetCall → Option (List NetCall × Bool)
send_loop net zero sock timeout rest cs = none
send_loop net (suc fuel) sock timeout rest cs =
    let (cs1, ready) = ready_log net sock timeout cs in
    let (cs2, bytes) = call net (send sock rest) cs1 in
    let left = drop (pos_part bytes) rest in
    let again = send_loop net fuel sock timeout left cs2 in
    if not ready
    then some (cs1, false)
    else if is_positive bytes
    then (if length left == 0 then some (cs2, true) else again)
    else some (cs2, false)

-- One round for each byte, and one for an empty buffer, is fuel enough.
unfoldable pub send_data_socket : Net → ℤ → List ℕ → ℕ → List NetCall → Option (List NetCall × Bool)
send_data_socket net sock buffer timeout cs =
    send_loop net (suc (length buffer)) sock timeout buffer cs

-- The `timeval` stands for the timeout exactly, and its microseconds are fewer than a million.
pub timeval_exact :
    (timeout : ℕ)
    → ((timeval timeout).0 * 1000000 + (timeval timeout).1 ≡ timeout * 1000)
      × ((timeval timeout).1 < 1000000)
unfolding timeval
timeval_exact timeout = ground arith
