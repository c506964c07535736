-- ===== src/Main/Arguments.antt =====
-- `desktopSetup` in src/vncflinger/main.cpp. The signal handlers and the log are left out.
use packages_services_vnc_fl.Audio.Args.{Arg, same}
use packages_services_vnc_fl.Prelude.{
  if◌then◌else◌, Bool, ℕ, ◌∷◌, Option, List, ◌||◌, none, [], false, ◌==◌, true, some,
}

-- `rfb::Configuration::setParam`, which is a parameter, with a name and a value and with one argument:
-- the configuration after it, or `none` where it returns false.
pub record Params : Type 1 where
  pub Config : Type 0
  pub set_pair : Arg → Arg → Config → Option Config
  pub set_one : Arg → Config → Option Config

-- The arguments "-pid", "-v", "-version" and "--version".
abbrev pub dash_pid : Arg
dash_pid = b'-' ∷ b'p' ∷ b'i' ∷ b'd' ∷ []

abbrev pub dash_v : Arg
dash_v = b'-' ∷ b'v' ∷ []

abbrev pub dash_version : Arg
dash_version = b'-' ∷ b'v' ∷ b'e' ∷ b'r' ∷ b's' ∷ b'i' ∷ b'o' ∷ b'n' ∷ []

unfoldable pub is_dashed : Arg → Bool
is_dashed [] = false
is_dashed (c ∷ cs) = c == b'-'

-- `&argv[i][1]` of an argument that starts with a dash.
unfoldable pub after_dash : Arg → Arg
after_dash [] = []
after_dash (c ∷ cs) = cs

module _ (ps : Params) where
  open ps use {Config, set_pair, set_one}

  -- The configuration, `mPidFile`, and `desktop != NULL`.
  pub record Server : Type 0 where
    pub config : Config
    pub pid_file : Arg
    pub has_desktop : Bool

  -- What `desktopSetup` returns and leaves, and whether it printed the version.
  pub record Setup : Type 0 where
    pub code : ℕ
    pub printed : Bool
    pub server : Server

  unfoldable pub refuse_argument : Arg → Server → Setup
  refuse_argument arg s =
      if is_dashed arg
      then if same arg dash_v || (same arg dash_version || same arg (b'-' ∷ dash_version))
        then record { code = 4; printed = true; server = s }
        else record { code = 2; printed = false; server = s }
      else record { code = 5; printed = false; server = s }

  -- The first `setParam`, which only an argument with a dash reaches.
  unfoldable pub set_dashed : Arg → Arg → Config → Option Config
  set_dashed arg value c = if is_dashed arg then set_pair (after_dash arg) value c else none

  -- The loop over the arguments.
  unfoldable pub setup_loop : List Arg → Server → Setup
  unfolding refuse_argument set_dashed
  setup_loop [] s = record { code = 0; printed = false; server = record s { has_desktop = true } }
  setup_loop (arg ∷ []) s = elim (set_one arg s.config) [
    | some c ↦ setup_loop [] (record s { config = c })
    | none ↦ refuse_argument arg s
  ]
  setup_loop (arg ∷ value ∷ rest) s = elim (set_dashed arg value s.config) [
    | some c ↦ setup_loop rest (record s { config = c })
    | none ↦ elim (set_one arg s.config) [
      | some c ↦ setup_loop (value ∷ rest) (record s { config = c })
      | none ↦ elim (same arg dash_pid) [
        | true ↦ setup_loop rest (record s { pid_file = value })
        | false ↦ refuse_argument arg s
      ]
    ]
  ]

  -- `argv`, with the program's name first.
  unfoldable pub desktop_setup : List Arg → Server → Setup
  unfolding setup_loop
  desktop_setup [] s = setup_loop [] s
  desktop_setup (program ∷ args) s = setup_loop args s
