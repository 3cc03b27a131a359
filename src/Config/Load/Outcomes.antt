-- ===== src/Config/Load/Outcomes.antt =====
-- Which configurations are loaded.
use poolbeg.Prelude.{◌≡◌, sym, ap, ◌∙◌, Option, none, some, String, Option-cases, inl, inr, arith}
use poolbeg.Config.{Config}
use poolbeg.Config.Routes.{validate}
use poolbeg.Config.Load.{interpolate_env_vars, loaded, load}

module _ (env : String → Option String) (from_yaml : String → Option Config) where
  -- A configuration that is loaded is one that `validate` accepts.
  pub load-validate :
      (raw : Option String) (config : Config)
      → load env from_yaml raw ≡ loaded config
      → validate config.chains ≡ none
  unfolding load
  load-validate none config e = absurd (ground arith)
  load-validate (some text) config e =
      elim (Option-cases (from_yaml (interpolate_env_vars env text))) [
        | inl bad ↦ absurd (ground arith)
        | inr (c, good) ↦ elim (Option-cases (validate c.chains)) [
          | inr (err, wrong) ↦ absurd (ground arith)
          | inl valid ↦
              let same : c ≡ config = ground arith in ap (λ x. validate x.chains) (sym same) ∙ valid
        ]
      ]
