-- ===== src/Sockets/Delivery.antt =====
-- What `sendDataSocket` hands to the socket.
use packages_services_vnc_fl.Prelude.{
  ◌∷◌, [], ◌++◌, refl, inl, inr, ◌≤◌, ◌<◌, false, length, ◌&&◌, ◌==◌, some, not, suc, ◌∙◌, sym,
  drop, append-nil, Bool-cases, zero, append_assoc, take-append-drop, ap, length-drop,
}
use packages_services_vnc_fl.Sockets.Net.{
  Net, NetCall, open_unix, open_tcp, control_socket, set_reuse_address, bind_unix, bind_tcp, listen,
  accept, select_write, send, shutdown, close,
}
use packages_services_vnc_fl.Sockets.Send.{can_send, send_loop, send_data_socket, ready_log}
use packages_services_vnc_fl.Prelude.Int.{ℤ, pos_part, pos, negsuc, is_positive}
use packages_services_vnc_fl.Prelude.{List, ℕ, ◌≡◌, Bool, ◌++◌, take, true, arith, []}

-- The bytes that the sends of a log accepted, oldest first.
unfoldable pub delivered : Net → List NetCall → List ℕ
delivered net [] = []
delivered net (send s rest ∷ cs) =
    delivered net cs ++ take (pos_part (net.answer cs (send s rest))) rest
delivered net (open_unix ∷ cs) = delivered net cs
delivered net (open_tcp ∷ cs) = delivered net cs
delivered net (control_socket name ∷ cs) = delivered net cs
delivered net (accept s ∷ cs) = delivered net cs
delivered net (close s ∷ cs) = delivered net cs
delivered net (set_reuse_address s ∷ cs) = delivered net cs
delivered net (bind_unix s path ∷ cs) = delivered net cs
delivered net (bind_tcp s port ∷ cs) = delivered net cs
delivered net (listen s ∷ cs) = delivered net cs
delivered net (select_write s sec usec ∷ cs) = delivered net cs
delivered net (shutdown s ∷ cs) = delivered net cs

abbrev pub is_empty : List ℕ → Bool
is_empty [] = true
is_empty (x ∷ xs) = false

-- How a run ends: `sent` is what arrived of the bytes, in order and with none left out, `unsent` is
-- the rest of them; it reports success exactly if there were bytes and all of them were sent.
pub record Sent (net : Net) (cs : List NetCall) (bytes : List ℕ) (r : List NetCall × Bool)
    : Type 0 where
  pub sent : List ℕ
  pub unsent : List ℕ
  pub split : sent ++ unsent ≡ bytes
  pub arrives : delivered net r.0 ≡ delivered net cs ++ sent
  pub success : r.1 ≡ (is_empty unsent && not (is_empty bytes))

ready_log-delivered :
    (net : Net) (sock : ℤ) (timeout : ℕ) (cs : List NetCall)
    → delivered net (ready_log net sock timeout cs).0 ≡ delivered net cs
unfolding ready_log can_send delivered
ready_log-delivered net sock timeout cs = ground arith

-- Nothing sent.
Sent-none :
    (net : Net) (cs cs' : List NetCall) (bytes : List ℕ)
    → delivered net cs' ≡ delivered net cs
    → Sent net cs bytes (cs', false)
Sent-none net cs cs' bytes h = record {
  sent = [];
  unsent = bytes;
  split = refl;
  arrives = h ∙ sym (append-nil (delivered net cs));
  success = none_sent bytes;
}
  where
    none_sent : (b : List ℕ) → false ≡ (is_empty b && not (is_empty b))
    none_sent [] = refl
    none_sent (x ∷ xs) = refl

-- The result of `send` as documented: at most the bytes that it was given.
abbrev pub SendsAtMost : Net → Type 0
SendsAtMost net =
    (cs : List NetCall) (s : ℤ) (buffer : List ℕ)
    → pos_part (net.answer cs (send s buffer)) ≤ length buffer

is_positive-lt : (z : ℤ) → is_positive z ≡ true → 0 < pos_part z
is_positive-lt (pos n) h = ground arith
is_positive-lt (negsuc n) h = cc

not_positive-eq : (z : ℤ) → is_positive z ≡ false → pos_part z ≡ 0
not_positive-eq (pos n) h = ground arith
not_positive-eq (negsuc n) h = refl

length_zero-eq : (b : List ℕ) → (length b == 0) ≡ true → b ≡ []
length_zero-eq [] h = refl
length_zero-eq (x ∷ xs) h = ground arith

not_zero-lt : (n : ℕ) → (n == 0) ≡ false → 0 < n
not_zero-lt n h = ground arith

not_empty : (b : List ℕ) → 0 < length b → is_empty b ≡ false
not_empty [] h = absurd (omega arith)
not_empty (x ∷ xs) h = refl

-- One send that took bytes, and what the rest of the loop does.
module _ (net : Net) (sock n : ℤ) (bytes : List ℕ) (cs c1 : List NetCall)
    (answered : net.answer c1 (send sock bytes) ≡ n) (took : 0 < pos_part n)
    (most : pos_part n ≤ length bytes) (d1 : delivered net c1 ≡ delivered net cs) where
  left : List ℕ
  left = drop (pos_part n) bytes

  delivered-send :
      delivered net (send sock bytes ∷ c1) ≡ delivered net cs ++ take (pos_part n) bytes
  unfolding delivered
  delivered-send = rw (answered, d1)

  Sent-all : left ≡ [] → Sent net cs bytes (send sock bytes ∷ c1, true)
  unfolding left
  Sent-all none_left = record {
    sent = take (pos_part n) bytes;
    unsent = left;
    split = take-append-drop (pos_part n) bytes;
    arrives = delivered-send;
    success = ground (arith, none_left, not_empty bytes (omega arith));
  }

  Sent-some :
      (r : List NetCall × Bool)
      → 0 < length left
      → Sent net (send sock bytes ∷ c1) left r
      → Sent net cs bytes r
  unfolding left
  Sent-some r more s = record {
    sent = take (pos_part n) bytes ++ s.sent;
    unsent = s.unsent;
    split =
        append_assoc (take (pos_part n) bytes) s.sent s.unsent
        ∙ ap (λ l. take (pos_part n) bytes ++ l) s.split
        ∙ take-append-drop (pos_part n) bytes;
    arrives =
        s.arrives
        ∙ ap (λ l. l ++ s.sent) delivered-send
        ∙ append_assoc (delivered net cs) (take (pos_part n) bytes) s.sent;
    success = ground (arith, s.success, not_empty left more, not_empty bytes (omega arith));
  }

delivered-refused :
    (net : Net) (sock : ℤ) (bytes : List ℕ) (cs c1 : List NetCall)
    → is_positive (net.answer c1 (send sock bytes)) ≡ false
    → delivered net c1 ≡ delivered net cs
    → delivered net (send sock bytes ∷ c1) ≡ delivered net cs
unfolding delivered
delivered-refused net sock bytes cs c1 failed d1 =
    rw (not_positive-eq _ failed) (append-nil (delivered net c1) ∙ d1)

module _ (net : Net) (most : SendsAtMost net) (sock : ℤ) (timeout : ℕ) where
  send_loop_sends :
      (fuel : ℕ) (bytes : List ℕ) (cs : List NetCall)
      → length bytes < fuel
      → (r : List NetCall × Bool) × (send_loop net fuel sock timeout bytes cs ≡ some r)
        × Sent net cs bytes r
  unfolding send_loop left
  send_loop_sends zero bytes cs h = elim h [ ]
  send_loop_sends (suc fuel) bytes cs h =
      let c1 = (ready_log net sock timeout cs).0 in
      let n = net.answer c1 (send sock bytes) in
      let c2 = send sock bytes ∷ c1 in
      let left = drop (pos_part n) bytes in
      let d1 = ready_log-delivered net sock timeout cs in
      elim (Bool-cases (ready_log net sock timeout cs).1) [
        | inr stuck ↦ ((c1, false), rw stuck, Sent-none net cs c1 bytes d1)
        | inl ready ↦ elim (Bool-cases (is_positive n)) [
          | inr failed ↦ (
            (c2, false),
            rw (ready, failed),
            Sent-none net cs c2 bytes (delivered-refused net sock bytes cs c1 failed d1),
          )
          | inl some_sent ↦ elim (Bool-cases (length left == 0)) [
            | inl all ↦ (
              (c2, true),
              rw (ready, some_sent, all),
              Sent-all net sock n bytes cs c1 refl (is_positive-lt n some_sent) (most c1 sock bytes)
                  d1 (length_zero-eq left all),
            )
            | inr more ↦
                let (r, e, s) =
                  send_loop_sends fuel left c2
                    (omega (arith, length-drop (pos_part n) bytes, is_positive-lt n some_sent)) in
                (
                  r,
                  rw (ready, some_sent, more) e,
                  Sent-some net sock n bytes cs c1 refl (is_positive-lt n some_sent)
                      (most c1 sock bytes) d1 r (not_zero-lt (length left) more) s,
                )
          ]
        ]
      ]

-- `sendDataSocket`, for every buffer, every timeout and every behaviour of a socket that takes at most
-- the bytes it is given: the loop ends; what it delivers is a prefix of the buffer, in order and with
-- nothing left out or sent twice; and it returns true exactly if the buffer is not empty and all of it
-- was delivered.
pub send_data_socket_sends :
    (net : Net) (sock : ℤ) (buffer : List ℕ) (timeout : ℕ) (cs : List NetCall)
    → SendsAtMost net
    → (r : List NetCall × Bool) × (send_data_socket net sock buffer timeout cs ≡ some r)
      × Sent net cs buffer r
unfolding send_data_socket
send_data_socket_sends net sock buffer timeout cs most =
    send_loop_sends net most sock timeout (suc (length buffer)) buffer cs (omega arith)
