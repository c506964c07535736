-- ===== src/Audio/Args.antt =====
-- `audio_main`'s reading of its arguments, and the socket that `audiostreamer_create_thread` makes
-- from them. `atoi` is the C library's, and a parameter.
use packages_services_vnc_fl.Prelude.{
  ℕ, Bool, true, false, List, [], ◌∷◌, if◌then◌else◌, ◌==◌, ◌≡◌, arith, ◌&&◌, refl,
}

abbrev pub Arg : Type 0
Arg = List ℕ

abbrev pub same : Arg → Arg → Bool
same [] [] = true
same [] (y ∷ ys) = false
same (x ∷ xs) [] = false
same (x ∷ xs) (y ∷ ys) = x == y && same xs ys

abbrev pub dash_tcp : Arg
dash_tcp = b'-' ∷ b'T' ∷ []

abbrev pub dash_android : Arg
dash_android = b'-' ∷ b'U' ∷ []

abbrev pub dash_unix : Arg
dash_unix = b'-' ∷ b'u' ∷ []

abbrev pub default_socket_tcp_port : ℕ
default_socket_tcp_port = 9200

-- "audiostreamer" and "@audiostreamer".
abbrev pub default_socket_unix_name : Arg
default_socket_unix_name =
    b'a' ∷ b'u' ∷ b'd' ∷ b'i' ∷ b'o' ∷ b's' ∷ b't' ∷ b'r' ∷ b'e' ∷ b'a' ∷ b'm' ∷ b'e' ∷ b'r' ∷ []

-- The file's statics that the arguments set; they keep their values from one call to the next.
pub record Settings : Type 0 where
  pub socket_tcp_port : ℕ
  pub using_socket_android : Bool
  pub using_socket_unix : Bool
  pub socket_name : Arg

unfoldable pub initial : Settings
initial = record {
  socket_tcp_port = default_socket_tcp_port;
  using_socket_android = false;
  using_socket_unix = false;
  socket_name = [];
}

-- A call that reads its options, or prints the usage; the statics that it has set stay set then too.
pub data Parsed : Type 0 where
  options usage : Settings → Parsed

module _ (atoi : Arg → ℕ) where
  tcp : Settings → ℕ → Settings
  tcp s port = record s { using_socket_android = false; socket_tcp_port = port }

  unix : Settings → Arg → Settings
  unix s name = record s {
    using_socket_android = false;
    using_socket_unix = true;
    socket_name = name;
  }

  -- The loop over the arguments. An option takes the next argument as its value, whatever it is.
  unfoldable pub parse : Settings → List Arg → Parsed
  unfolding tcp unix
  parse s [] = options s
  parse s (arg ∷ []) =
      if same arg dash_tcp
      then options (tcp s default_socket_tcp_port)
      else if same arg dash_android
      then options (record s { using_socket_android = true })
      else if same arg dash_unix
      then options (unix s (b'@' ∷ default_socket_unix_name))
      else usage s
  parse s (arg ∷ value ∷ rest) =
      let after_tcp = parse (tcp s (atoi value)) rest in
      let after_unix = parse (unix s value) rest in
      if same arg dash_tcp
      then after_tcp
      else if same arg dash_android
      then usage (record s { using_socket_android = true })
      else if same arg dash_unix
      then after_unix
      else usage s

-- The arguments after the program's name; with none the usage is printed.
unfoldable pub audio_main_args : (Arg → ℕ) → Settings → List Arg → Parsed
audio_main_args atoi s [] = usage s
audio_main_args atoi s (arg ∷ rest) = parse atoi s (arg ∷ rest)

pub data Listener : Type 0 where
  android_socket : Listener
  unix_socket : Arg → Listener
  tcp_socket : ℕ → Listener

-- The choice that `audiostreamer_create_thread` makes.
unfoldable pub listener : Settings → Listener
listener s =
    if s.using_socket_android
    then android_socket
    else if s.using_socket_unix
    then unix_socket s.socket_name
    else tcp_socket s.socket_tcp_port

abbrev pub settings_of : Parsed → Settings
settings_of (options s) = s
settings_of (usage s) = s

abbrev pub is_tcp : Listener → Bool
is_tcp (tcp_socket port) = true
is_tcp (unix_socket name) = false
is_tcp android_socket = false

module _ (atoi : Arg → ℕ) where
  parse_keeps_unix :
      (s : Settings) (args : List Arg)
      → s.using_socket_unix ≡ true
      → (settings_of (parse atoi s args)).using_socket_unix ≡ true
  unfolding parse
  parse_keeps_unix s [] h = h
  parse_keeps_unix s (arg ∷ []) h = ground arith
  parse_keeps_unix s (arg ∷ value ∷ rest) h = ground (
    arith,
    parse_keeps_unix (tcp atoi s (atoi value)) rest,
    parse_keeps_unix (unix atoi s value) rest,
  )

-- Once `-u` has been read, in this call or an earlier one, no arguments ever select the TCP socket
-- again, also where `-T` is read after it.
pub unix_is_sticky :
    (atoi : Arg → ℕ) (s : Settings) (args : List Arg)
    → s.using_socket_unix ≡ true
    → is_tcp (listener (settings_of (audio_main_args atoi s args))) ≡ false
unfolding audio_main_args listener
unix_is_sticky atoi s [] h = ground arith
unix_is_sticky atoi s (arg ∷ rest) h = ground (arith, parse_keeps_unix atoi s (arg ∷ rest))

-- Options as a caller writes them: any that carry a value, then at most one that does not.
pub data Opt : Type 0 where
  opt_tcp opt_unix : Arg → Opt

pub data LastOpt : Type 0 where
  no_more last_tcp last_android last_unix : LastOpt

unfoldable pub format : List Opt → LastOpt → List Arg
format [] no_more = []
format [] last_tcp = dash_tcp ∷ []
format [] last_android = dash_android ∷ []
format [] last_unix = dash_unix ∷ []
format (opt_tcp port ∷ opts) end = dash_tcp ∷ port ∷ format opts end
format (opt_unix name ∷ opts) end = dash_unix ∷ name ∷ format opts end

-- What the options ask for, each in its turn.
module _ (atoi : Arg → ℕ) where
  unfoldable pub meant : Settings → List Opt → LastOpt → Settings
  unfolding tcp unix
  meant s [] no_more = s
  meant s [] last_tcp = tcp atoi s default_socket_tcp_port
  meant s [] last_android = record s { using_socket_android = true }
  meant s [] last_unix = unix atoi s (b'@' ∷ default_socket_unix_name)
  meant s (opt_tcp port ∷ opts) end = meant (tcp atoi s (atoi port)) opts end
  meant s (opt_unix name ∷ opts) end = meant (unix atoi s name) opts end

-- For every `atoi` and every state of the statics, the arguments that `format` writes are read back
-- as the options that they were written from, in their order.
pub parse-format :
    (atoi : Arg → ℕ) (s : Settings) (opts : List Opt) (end : LastOpt)
    → parse atoi s (format opts end) ≡ options (meant atoi s opts end)
unfolding parse format meant
parse-format atoi s [] no_more = refl
parse-format atoi s [] last_tcp = refl
parse-format atoi s [] last_android = refl
parse-format atoi s [] last_unix = refl
parse-format atoi s (opt_tcp port ∷ opts) end = parse-format atoi (tcp atoi s (atoi port)) opts end
parse-format atoi s (opt_unix name ∷ opts) end = parse-format atoi (unix atoi s name) opts end
