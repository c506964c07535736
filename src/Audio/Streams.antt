-- ===== src/Audio/Streams.antt =====
-- What a client of the audio streamer receives, and how a session with it ends.
use packages_services_vnc_fl.Sockets.Net.{Net, NetCall, close, shutdown}
use packages_services_vnc_fl.Sockets.Delivery.{
  delivered, SendsAtMost, send_data_socket_sends, is_empty,
}
use packages_services_vnc_fl.Audio.Record.{
  record_loop, Recorder, record_thread, present, null, audiostreamer_init, AudioCall, Ended,
  stop_record, start_record,
}
use packages_services_vnc_fl.Prelude.{
  ℕ, Bool, true, List, [], ◌∷◌, ◌++◌, some, refl, inl, inr, ◌≡◌, ◌&&◌, sym, append-nil, Bool-cases,
  arith, append_assoc, ◌∙◌, ap, false,
}
use packages_services_vnc_fl.Prelude.Int.{ℤ, is_positive}
use packages_services_vnc_fl.Sockets.Create.{close_socket}

-- All that was read, in order.
abbrev pub joined : List (List ℕ) → List ℕ
joined [] = []
joined (x ∷ xs) = x ++ joined xs

-- `after` has delivered `sent`, which the reads begin with.
pub record Streams (net : Net) (reads : List (List ℕ)) (before after : List NetCall) : Type 0 where
  pub sent : List ℕ
  pub unsent : List ℕ
  pub split : sent ++ unsent ≡ joined reads
  pub arrives : delivered net after ≡ delivered net before ++ sent

is_empty-eq : (xs : List ℕ) (b : Bool) → true ≡ (is_empty xs && b) → xs ≡ []
is_empty-eq [] b h = refl
is_empty-eq (x ∷ xs) b h = cc

module _ (net : Net) (most : SendsAtMost net) (sock : ℤ) where
  record_loop-Streams :
      (reads : List (List ℕ)) (cs : List NetCall)
      → (cs' : List NetCall) × (record_loop net sock reads cs ≡ some cs') × Streams net reads cs cs'
  unfolding record_loop
  record_loop-Streams [] cs = (
    cs,
    refl,
    record { sent = []; unsent = []; split = refl; arrives = sym (append-nil (delivered net cs)) },
  )
  record_loop-Streams ([] ∷ reads) cs =
      let (cs', e, s) = record_loop-Streams reads cs in
      (cs', e, record { sent = s.sent; unsent = s.unsent; split = s.split; arrives = s.arrives })
  record_loop-Streams ((x ∷ xs) ∷ reads) cs =
      let (r, e, s) = send_data_socket_sends net sock (x ∷ xs) 0 cs most in
      elim (Bool-cases r.1) [
        | inr failed ↦ (
          r.0,
          ground (arith, e, failed),
          record {
            sent = s.sent;
            unsent = s.unsent ++ joined reads;
            split =
                sym (append_assoc s.sent s.unsent (joined reads))
                ∙ ap (λ l. l ++ joined reads) s.split;
            arrives = s.arrives;
          },
        )
        | inl done ↦
            let (cs', e', t) = record_loop-Streams reads r.0 in
            let all : s.unsent ≡ [] = is_empty-eq s.unsent true (sym done ∙ s.success) in
            (
              cs',
              ground (arith, e, done, e'),
              record {
                sent = s.sent ++ t.sent;
                unsent = t.unsent;
                split =
                    append_assoc s.sent t.sent t.unsent
                    ∙ ap (λ l. s.sent ++ l) t.split
                    ∙ ap (λ l. l ++ joined reads)
                        (sym (append-nil s.sent) ∙ ap (λ l. s.sent ++ l) (sym all) ∙ s.split);
                arrives =
                    t.arrives
                    ∙ ap (λ l. l ++ t.sent) s.arrives
                    ∙ append_assoc (delivered net cs) s.sent t.sent;
              },
            )
      ]

-- The recorder is there, or can be made.
abbrev pub available : Recorder → Bool → Bool
available null check = check
available (present made) check = true

-- A session with a client, for every sequence of reads and every socket that takes at most the bytes
-- it is given: if the recorder is there or can be made and the buffer is allocated, the session ends;
-- the recorder was started and then stopped, the client's socket was shut down and closed last, and
-- the client received a prefix of all that was read, in order.
pub record_thread-Streams :
    (net : Net) (check : Bool) (sock : ℤ) (reads : List (List ℕ)) (recorder : Recorder)
    (audio : List AudioCall) (cs : List NetCall)
    → SendsAtMost net
    → available recorder check ≡ true
    → is_positive sock ≡ true
    → (e : Ended) × (record_thread net check true sock reads recorder audio cs ≡ some e)
      × (e.audio ≡ stop_record ∷ start_record ∷ audio)
      × (rest : List NetCall) × (e.calls ≡ close sock ∷ shutdown sock ∷ rest)
      × Streams net reads cs rest
unfolding record_thread close_socket audiostreamer_init
record_thread-Streams net check sock reads recorder audio cs most able p =
    let (rest, e, s) = record_loop-Streams net most sock reads cs in
    (
      record {
        recorder = made recorder;
        audio = stop_record ∷ start_record ∷ audio;
        calls = close sock ∷ shutdown sock ∷ rest;
      },
      runs recorder able rest e,
      refl,
      rest,
      refl,
      s,
    )
  where
    made : Recorder → Recorder
    made null = present check
    made (present b) = present b

    runs :
        (r : Recorder)
        → available r check ≡ true
        → (rest : List NetCall) → record_loop net sock reads cs ≡ some rest
        → record_thread net check true sock reads r audio cs
          ≡ some (record {
            recorder = made r;
            audio = stop_record ∷ start_record ∷ audio;
            calls = close sock ∷ shutdown sock ∷ rest;
          })
    runs null h rest e = ground (arith, p, e)
    runs (present b) h rest e = ground (arith, p, e)

-- A session whose recorder fails its `initCheck` ends without closing the client's socket and without
-- a start; and as the failed recorder stays in the global, the next session, whatever `initCheck`
-- would say then, skips it and starts the failed recorder.
pub failed_init_is_kept :
    (net : Net) (allocated check : Bool) (sock next : ℤ) (reads reads' : List (List ℕ))
    (audio : List AudioCall) (cs : List NetCall)
    → SendsAtMost net
    → is_positive next ≡ true
    → (e f : Ended) × (record_thread net false allocated sock reads null audio cs ≡ some e)
      × (e.calls ≡ cs)
      × (e.audio ≡ audio)
      × (record_thread net check true next reads' e.recorder e.audio e.calls ≡ some f)
      × (f.audio ≡ stop_record ∷ start_record ∷ audio)
      × (f.recorder ≡ present false)
unfolding record_thread close_socket audiostreamer_init
failed_init_is_kept net allocated check sock next reads reads' audio cs most p =
    let (rest, e, s) = record_loop-Streams net most next reads' cs in
    (
      record { recorder = present false; audio = audio; calls = cs },
      record {
        recorder = present false;
        audio = stop_record ∷ start_record ∷ audio;
        calls = close next ∷ shutdown next ∷ rest;
      },
      refl,
      refl,
      refl,
      ground (arith, p, e),
      refl,
      refl,
    )
