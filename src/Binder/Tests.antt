-- ===== src/Binder/Tests.antt =====
-- A service of a VNCFlinger that keeps its port and knows the error -22.
use packages_services_vnc_fl.Binder.{VncFlinger, asks_start, asks_stop, asks_port, answer}
use packages_services_vnc_fl.Prelude.{true, false, ◌≡◌, refl}
use packages_services_vnc_fl.Prelude.Int.{ℤ, pos, negsuc}

abbrev keeps_port : VncFlinger ℤ
keeps_port = record {
  start = λ s. (s, pos 0);
  stop = λ s. (s, negsuc 21);
  set_port = λ p s. (p, pos 0);
  set_v4_address = λ a s. (s, pos 0);
  set_v6_address = λ a s. (s, pos 0);
  set_password = λ a s. (s, pos 0);
  clear_password = λ s. (s, pos 0);
  string8 = λ a. a;
}

port_test : answer keeps_port (asks_port (pos 5900)) (pos 0) ≡ (pos 5900, true)
unfolding answer
port_test = refl

stop_test : answer keeps_port asks_stop (pos 5900) ≡ (pos 5900, false)
unfolding answer
stop_test = refl

-- A start that succeeds is reported as a failure.
start_test : answer keeps_port asks_start (pos 5900) ≡ (pos 5900, false)
unfolding answer
start_test = refl
