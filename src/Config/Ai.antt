-- ===== src/Config/Ai.antt =====
-- core/env_config.py: the providers of models, read from the variables of the environment.
use xyn.Base.{
  String, Bool, true, false, not, ◌&&◌, ◌||◌, Option, none, some, List, [], ◌∷◌, ◌=?◌,
  if◌then◌else◌,
}
use xyn.Base.Text.{strip, lower}
use xyn.Base.Text.Format.{concat}
use xyn.Base.Exec.{Result, ok, err, Exec, pure, lift, ◌>>=◌}
use xyn.Base.Dict.{lookup, insert}
use xyn.Base.Table.{select}

-- The RuntimeErrors of the choice of providers, whose texts are left out.
pub data ConfigFault : Type 0 where
  unknown_provider missing_key several_keys incomplete_role unknown_role_provider
        role_without_default :
      ConfigFault

abbrev pub Environ : Type 0
Environ = List (String × String)

-- A reading of the variables, which may set some.
abbrev pub C : Type 0 → Type 0
C A = Exec ConfigFault Environ A

-- The value of a variable without the blanks around it, and "" where it is not set.
abbrev pub stripped : Option String → String
stripped none = ""
stripped (some s) = strip s

-- `if key not in os.environ: os.environ[key] = value`
abbrev pub set_missing : Option String → String → String → Environ → Environ
set_missing none key value environ = insert key value environ
set_missing (some s) key value environ = environ

-- The loop of `_env` over the aliases.
unfoldable pub from_aliases : String → String → List String → C String
unfolding lookup insert strip
from_aliases key default [] environ = (ok default, environ)
from_aliases key default (alias ∷ aliases) environ =
    let rest = from_aliases key default aliases environ in
    let value = stripped (lookup alias environ) in
    if value =? "" then rest else (ok value, set_missing (lookup key environ) key value environ)

-- `_env`
unfoldable pub env : String → String → List String → C String
unfolding lookup strip from_aliases
env key default aliases environ =
    let value = stripped (lookup key environ) in
    if value =? "" then from_aliases key default aliases environ else (ok value, environ)

pub record AiKeys : Type 0 where
  pub openai : String
  pub gemini : String
  pub anthropic : String

-- `keys.get(provider)`, with "" for a provider that is none.
unfoldable pub key_of : String → AiKeys → String
key_of provider keys =
    if provider =? "openai"
    then keys.openai
    else (if provider =? "gemini"
        then keys.gemini
        else (if provider =? "anthropic" then keys.anthropic else ""))

-- The provider, whether it is enabled, and the keys.
pub record AiChoice : Type 0 where
  pub provider : String
  pub enabled : Bool
  pub keys : AiKeys

unfoldable pub disabled_choice : AiKeys → AiChoice
disabled_choice keys = record { provider = "none"; enabled = false; keys = keys }

unfoldable pub enabled_choice : String → AiKeys → AiChoice
enabled_choice provider keys = record { provider = provider; enabled = true; keys = keys }

-- What the providers that have keys leave, where none is named.
unfoldable pub choose_available : AiKeys → List String → Result ConfigFault AiChoice
unfolding disabled_choice enabled_choice
choose_available keys [] = ok (disabled_choice keys)
choose_available keys (provider ∷ []) = ok (enabled_choice provider keys)
choose_available keys (provider ∷ other ∷ others) =
    if keys.openai =? "" then err several_keys else ok (enabled_choice "openai" keys)

abbrev pub is_disabling : String → Bool
is_disabling explicit = (explicit =? "none") || (explicit =? "disabled")

abbrev pub is_provider : String → Bool
is_provider provider = (provider =? "openai") || (provider =? "gemini") || (provider =? "anthropic")

-- What a provider that is named leaves.
unfoldable pub choose_explicit : String → AiKeys → Result ConfigFault AiChoice
unfolding key_of disabled_choice enabled_choice
choose_explicit explicit keys =
    if not (is_provider explicit || is_disabling explicit)
    then err unknown_provider
    else (if is_disabling explicit
        then ok (disabled_choice keys)
        else (if key_of explicit keys =? ""
            then err missing_key
            else ok (enabled_choice explicit keys)))

-- The providers that have keys, in the order of AI_PROVIDER_KEYS.
unfoldable pub available : AiKeys → List String
unfolding select key_of
available keys = select (λ p. not (key_of p keys =? "")) ("openai" ∷ "gemini" ∷ "anthropic" ∷ [])

unfoldable pub choose : String → AiKeys → Result ConfigFault AiChoice
unfolding choose_explicit choose_available available
choose explicit keys =
    if explicit =? "" then choose_available keys (available keys) else choose_explicit explicit keys

-- `_resolve_ai_provider_and_keys`
unfoldable pub resolve_ai_provider_and_keys : C AiChoice
unfolding env strip lower choose
resolve_ai_provider_and_keys = do
  openai ← env "XYN_OPENAI_API_KEY" "" ("OPENAI_API_KEY" ∷ [])
  gemini ←
      env "XYN_GEMINI_API_KEY" "" ("XYN_GOOGLE_API_KEY" ∷ "GEMINI_API_KEY" ∷ "GOOGLE_API_KEY" ∷ [])
  anthropic ← env "XYN_ANTHROPIC_API_KEY" "" ("ANTHROPIC_API_KEY" ∷ [])
  explicit ← env "XYN_AI_PROVIDER" "" []
  lift (
      choose (lower (strip explicit))
        (record { openai = openai; gemini = gemini; anthropic = anthropic }))

-- The provider, the model and the key of a role.
pub record AiRole : Type 0 where
  pub provider : String
  pub model : String
  pub api_key : String

unfoldable pub check_role : String → String → String → Result ConfigFault AiRole
check_role provider model api_key =
    if (provider =? "") && (model =? "") && (api_key =? "")
    then ok (record { provider = ""; model = ""; api_key = "" })
    else (if (provider =? "") || (model =? "") || (api_key =? "")
        then err incomplete_role
        else (if not (is_provider provider || (provider =? "google"))
            then err unknown_role_provider
            else ok (record {
              provider = if provider =? "google" then "gemini" else provider;
              model = model;
              api_key = api_key;
            })))

-- `_resolve_overlay_ai_role`, given the slug of the role in upper case.
unfoldable pub resolve_overlay_ai_role : String → C AiRole
unfolding env strip lower concat check_role
resolve_overlay_ai_role role = do
  provider ← env (concat ("XYN_AI_" ∷ role ∷ "_PROVIDER" ∷ [])) "" []
  model ← env (concat ("XYN_AI_" ∷ role ∷ "_MODEL" ∷ [])) "" []
  api_key ← env (concat ("XYN_AI_" ∷ role ∷ "_API_KEY" ∷ [])) "" []
  lift (check_role (lower (strip provider)) (strip model) (strip api_key))

-- What `load_seed_config` reads of the providers.
pub record AiSettings : Type 0 where
  pub choice : AiChoice
  pub model : String
  pub planning : AiRole
  pub coding : AiRole

abbrev pub model_default : String → String
model_default provider =
    if provider =? "openai"
    then "gpt-5-mini"
    else (if provider =? "gemini"
        then "gemini-2.0-flash"
        else (if provider =? "anthropic" then "claude-3-7-sonnet-latest" else "none"))

-- `_default_ai_model`
unfoldable pub default_ai_model : String → C String
unfolding env
default_ai_model provider = do
  explicit ← env "XYN_AI_MODEL" "" []
  pure (if explicit =? "" then model_default provider else explicit)

unfoldable pub check_settings : AiChoice → String → AiRole → AiRole → Result ConfigFault AiSettings
check_settings choice model planning coding =
    if not ((planning.provider =? "") && (coding.provider =? "")) && not choice.enabled
    then err role_without_default
    else ok (record { choice = choice; model = model; planning = planning; coding = coding })

abbrev model_of : AiChoice → C String
model_of choice = if choice.enabled then default_ai_model choice.provider else pure "none"

-- The part of `load_seed_config` that reads the providers.
unfoldable pub load_ai_settings : C AiSettings
unfolding resolve_ai_provider_and_keys default_ai_model resolve_overlay_ai_role check_settings
load_ai_settings = do
  choice ← resolve_ai_provider_and_keys
  model ← model_of choice
  planning ← resolve_overlay_ai_role "PLANNING"
  coding ← resolve_overlay_ai_role "CODING"
  lift (check_settings choice model planning coding)
