-- ===== src/Tests/ConfigTests.antt =====
-- The configuration at a concrete environment.
use xyn.Base.{◌≡◌, refl, true, [], ◌∷◌}
use xyn.Base.Text.{strip, is_space, lower, lstrip, rstrip}
use xyn.Base.Text.Format.{concat}
use xyn.Base.Exec.{◌>>=◌}
use xyn.Base.Dict.{lookup, insert}
use xyn.Base.Table.{select}
use xyn.Config.Ai.{
  Environ, AiSettings, from_aliases, env, key_of, disabled_choice, enabled_choice, choose_available,
  choose_explicit, available, choose, resolve_ai_provider_and_keys, check_role,
  resolve_overlay_ai_role, default_ai_model, check_settings, load_ai_settings,
}
use xyn.Config.Aliases.{env-again}
use xyn.Config.Consistent.{is_consistent, load_ai_settings-consistent}

-- The key of the default provider is set under an alias.
abbrev environ : Environ
environ =
    ("XYN_AI_PROVIDER", "gemini")
    ∷ ("GOOGLE_API_KEY", "k1")
    ∷ ("XYN_AI_CODING_PROVIDER", "google")
    ∷ ("XYN_AI_CODING_MODEL", "m")
    ∷ ("XYN_AI_CODING_API_KEY", "k2")
    ∷ []

abbrev settings : AiSettings
settings = record {
  choice = record {
    provider = "gemini";
    enabled = true;
    keys = record { openai = ""; gemini = "k1"; anthropic = "" };
  };
  model = "gemini-2.0-flash";
  planning = record { provider = ""; model = ""; api_key = "" };
  coding = record { provider = "gemini"; model = "m"; api_key = "k2" };
}

load_ai_settings-consistent_example : is_consistent settings ≡ true
unfolding strip is_space lower lstrip rstrip concat ◌>>=◌ lookup insert select from_aliases env
    key_of disabled_choice enabled_choice choose_available choose_explicit available choose
    resolve_ai_provider_and_keys check_role resolve_overlay_ai_role default_ai_model check_settings
    load_ai_settings
load_ai_settings-consistent_example = load_ai_settings-consistent environ settings refl

-- The second reading finds the key that the first one set.
env-again_example :
    env "XYN_GEMINI_API_KEY" ""
      ("GOOGLE_API_KEY" ∷ [])
      (env "XYN_GEMINI_API_KEY" "" ("GOOGLE_API_KEY" ∷ []) environ).1
    ≡ env "XYN_GEMINI_API_KEY" "" ("GOOGLE_API_KEY" ∷ []) environ
env-again_example = env-again "XYN_GEMINI_API_KEY" "" ("GOOGLE_API_KEY" ∷ []) environ
