-- ===== src/Main/Reading.antt =====
-- What `desktopSetup` makes of its arguments.
use packages_services_vnc_fl.Audio.Args.{Arg}
use packages_services_vnc_fl.Main.Arguments.{
  Params, Server, Setup, setup_loop, desktop_setup, set_dashed, dash_pid, is_dashed, after_dash,
}
use packages_services_vnc_fl.Prelude.{
  List, [], ◌∷◌, ◌≡◌, Option, none, some, true, false, ◌⊎◌, arith, if◌then◌else◌, Bool,
}

-- Arguments as a caller writes them: "-name value", "name=value" and "-pid file".
pub data ServerOpt : Type 0 where
  with_value : Arg → Arg → ServerOpt
  in_one pid_in : Arg → ServerOpt

unfoldable pub format_opts : List ServerOpt → List Arg
format_opts [] = []
format_opts (with_value name value ∷ opts) = (b'-' ∷ name) ∷ value ∷ format_opts opts
format_opts (in_one arg ∷ opts) = arg ∷ format_opts opts
format_opts (pid_in file ∷ opts) = dash_pid ∷ file ∷ format_opts opts

module _ (ps : Params) where
  open ps use {Config, set_pair, set_one}

  -- The state that the options ask for, each in its turn, where the library takes them all.
  unfoldable pub wanted : List ServerOpt → Server ps → Option (Server ps)
  wanted [] s = some (record s { has_desktop = true })
  wanted (with_value name value ∷ opts) s = elim (set_pair name value s.config) [
    | some c ↦ wanted opts (record s { config = c })
    | none ↦ none
  ]
  wanted (in_one arg ∷ opts) s = if is_dashed arg then none else elim (set_one arg s.config) [
    | some c ↦ wanted opts (record s { config = c })
    | none ↦ none
  ]
  wanted (pid_in file ∷ opts) s = wanted opts (record s { pid_file = file })

  setup_loop-in_one :
      (arg : Arg) (rest : List Arg) (s : Server ps) (c : Config)
      → is_dashed arg ≡ false
      → set_one arg s.config ≡ some c
      → setup_loop ps (arg ∷ rest) s ≡ setup_loop ps rest (record s { config = c })
  unfolding setup_loop set_dashed
  setup_loop-in_one arg [] s c d e = ground arith
  setup_loop-in_one arg (value ∷ rest) s c d e = ground arith

  setup_loop-format_opts :
      ((value : Arg) (c : Config) → set_pair (b'p' ∷ b'i' ∷ b'd' ∷ []) value c ≡ none)
      → ((c : Config) → set_one dash_pid c ≡ none)
      → (opts : List ServerOpt) (s t : Server ps) → wanted opts s ≡ some t
      → setup_loop ps (format_opts opts) s ≡ record { code = 0; printed = false; server = t }
  unfolding format_opts wanted setup_loop set_dashed is_dashed after_dash
  setup_loop-format_opts np ns [] s t e = ground arith
  setup_loop-format_opts np ns (with_value name value ∷ opts) s t e =
      grind (arith, setup_loop-format_opts np ns opts)
  setup_loop-format_opts np ns (in_one arg ∷ opts) s t e =
      grind (arith, setup_loop-format_opts np ns opts, setup_loop-in_one arg (format_opts opts) s)
  setup_loop-format_opts np ns (pid_in file ∷ opts) s t e = ground (
    arith,
    np file s.config,
    ns s.config,
    setup_loop-format_opts np ns opts (record s { pid_file = file }) t e,
  )

  -- With a library that has no parameter of the name "pid", and whenever it takes the options that a
  -- caller writes, those in one argument starting without a dash, `desktopSetup` succeeds and leaves
  -- the desktop, the pid file and the configuration that the options ask for, in their order.
  pub desktop_setup-format_opts :
      ((value : Arg) (c : Config) → set_pair (b'p' ∷ b'i' ∷ b'd' ∷ []) value c ≡ none)
      → ((c : Config) → set_one dash_pid c ≡ none)
      → (program : Arg) (opts : List ServerOpt) (s t : Server ps) → wanted opts s ≡ some t
      → desktop_setup ps (program ∷ format_opts opts) s
        ≡ record { code = 0; printed = false; server = t }
  unfolding desktop_setup
  desktop_setup-format_opts np ns program opts s t e = setup_loop-format_opts np ns opts s t e

  -- `had` is whether there was a desktop before the call.
  unfoldable pub SetsUp : Bool → Setup ps → Type 0
  SetsUp had r =
      ((r.code ≡ 0) × (r.server.has_desktop ≡ true) × (r.printed ≡ false))
      ⊎ (((r.code ≡ 2) ⊎ (r.code ≡ 5)) × (r.server.has_desktop ≡ had) × (r.printed ≡ false))
      ⊎ ((r.code ≡ 4) × (r.server.has_desktop ≡ had) × (r.printed ≡ true))

  setup_loop-SetsUp :
      (args : List Arg) (s : Server ps) → SetsUp s.has_desktop (setup_loop ps args s)
  unfolding setup_loop SetsUp
  setup_loop-SetsUp [] s = ground arith
  setup_loop-SetsUp (arg ∷ []) s = ground arith
  setup_loop-SetsUp (arg ∷ value ∷ rest) s =
      grind (arith, setup_loop-SetsUp rest, setup_loop-SetsUp (value ∷ rest))

  -- `desktopSetup` returns 0, 2, 4 or 5. With 0 there is a desktop, and with another code there is one
  -- exactly if there was one before; the version is printed exactly with 4.
  pub desktop_setup-SetsUp :
      (args : List Arg) (s : Server ps) → SetsUp s.has_desktop (desktop_setup ps args s)
  unfolding desktop_setup
  desktop_setup-SetsUp [] s = setup_loop-SetsUp [] s
  desktop_setup-SetsUp (program ∷ args) s = setup_loop-SetsUp args s
