-- ===== src/Main/Process/Invariant.antt =====
-- What holds of a process between two steps.
use packages_services_vnc_fl.Main.Arguments.{Params}
use packages_services_vnc_fl.Main.Process.{Process, with_env}
use packages_services_vnc_fl.Pixels.{Floats}
use packages_services_vnc_fl.Input.Kernel.{Kernel}
use packages_services_vnc_fl.Desktop.State.{Desktop, Platform}
use packages_services_vnc_fl.Desktop.InStep.{is_present, InStep}
use packages_services_vnc_fl.Prelude.{
  true, false, Option, some, none, ◌||◌, not, ◌≡◌, arith, ap, ◌∙◌, subst,
}

module _ (ps : Params) (fs : Floats) (k : Kernel) (pf : Platform) where
  open fs use {Float}

  -- A desktop has `gEnv` set and its parts in step, and runs only while `startService` does.
  abbrev pub SoundOf : Option (Desktop Float) → Process ps fs k pf → Type 0
  SoundOf none p = p.serving ≡ false
  SoundOf (some d) p =
      (p.env ≡ true) × InStep fs d × ((p.serving || not (is_present d.pixels)) ≡ true)

  abbrev pub IsSound : Process ps fs k pf → Type 0
  IsSound p = SoundOf p.desktop p

  -- The entry uses no null pointer and leaves a sound process.
  abbrev pub Enters : Option (Process ps fs k pf) → Type 0
  Enters r = (q : Process ps fs k pf) × (r ≡ some q) × IsSound q

  pub SoundOf-same :
      (o : Option (Desktop Float)) (p q : Process ps fs k pf)
      → (p.env ≡ true → q.env ≡ true)
      → q.serving ≡ p.serving
      → SoundOf o p
      → SoundOf o q
  SoundOf-same none p q env e s = e ∙ s
  SoundOf-same (some d) p q env e s = (env s.0, s.1, ground (arith, s.2))

  pub with_env-runs :
      (p : Process ps fs k pf) (d d' : Desktop Float)
      → p.env ≡ true
      → with_env ps fs k pf p d (some d') ≡ some (record p { desktop = some d' })
  unfolding with_env
  with_env-runs p d d' h = rw h

  -- A call that keeps the desktop in step and running or not.
  pub with_env-Enters :
      (p : Process ps fs k pf) (d d' : Desktop Float) (o : Option (Desktop Float))
      → o ≡ some d'
      → p.env ≡ true
      → InStep fs d'
      → (p.serving || not (is_present d'.pixels)) ≡ true
      → Enters (with_env ps fs k pf p d o)
  with_env-Enters p d d' o e env s h = (
    record p { desktop = some d' },
    ap (with_env ps fs k pf p d) e ∙ with_env-runs p d d' env,
    (env, s, h),
  )

  -- What a sound process with a desktop has.
  pub with_desktop :
      (p : Process ps fs k pf) (d : Desktop Float)
      → p.desktop ≡ some d
      → IsSound p
      → SoundOf (some d) p
  with_desktop p d h s = subst (λ o. SoundOf o p) h s
