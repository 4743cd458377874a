-- ===== src/Config/Consistent.antt =====
-- The providers that core/env_config.py accepts are consistent.
use xyn.Base.{
  String, ◌≡◌, refl, sym, ap, ◌∙◌, Bool, true, inl, inr, not, ◌&&◌, ◌||◌, ◌=?◌, if◌then◌else◌,
  Bool-cases,
}
use xyn.Base.Text.{strip, lower}
use xyn.Base.Exec.{Result, Result-cases, ok, err, lift, ◌>>=◌}
use xyn.Base.Table.{select}
use xyn.Config.Ai.{
  ConfigFault, Environ, C, AiKeys, key_of, AiChoice, disabled_choice, enabled_choice,
  choose_available, is_disabling, is_provider, choose_explicit, available, choose,
  resolve_ai_provider_and_keys, AiRole, check_role, resolve_overlay_ai_role, AiSettings,
  check_settings, load_ai_settings,
}

-- An enabled provider is one of the three and has a key; without one it is "none".
unfoldable pub is_usable : AiChoice → Bool
is_usable choice =
    if choice.enabled
    then is_provider choice.provider && not (key_of choice.provider choice.keys =? "")
    else choice.provider =? "none"

-- A role is not set at all, or has a provider of the three, a model and a key.
unfoldable pub is_complete : AiRole → Bool
is_complete role =
    if (role.provider =? "") && (role.model =? "") && (role.api_key =? "")
    then true
    else is_provider role.provider && not (role.model =? "") && not (role.api_key =? "")

-- The default provider and both roles are as above, and it is enabled where a role is set.
unfoldable pub is_consistent : AiSettings → Bool
unfolding is_usable is_complete
is_consistent settings =
    is_usable settings.choice
    && is_complete settings.planning
    && is_complete settings.coding
    && (((settings.planning.provider =? "") && (settings.coding.provider =? ""))
        || settings.choice.enabled)

abbrev passes : {A : Type 0} → (A → Bool) → Result ConfigFault A → Bool
passes p (ok a) = p a
passes p (err e) = true

-- Whatever the call returns passes the test.
record Yields {A : Type 0} (p : A → Bool) (m : C A) : Type 0 where
  yields : (environ : Environ) → passes p (m environ).0 ≡ true

lift-Yields :
    {A : Type 0} (p : A → Bool) (r : Result ConfigFault A) → passes p r ≡ true → Yields p (lift r)
lift-Yields p r h = record { yields = λ environ. h }

bind-Yields :
    {A B : Type 0} (p : A → Bool) (q : B → Bool) (m : C A) (f : A → C B)
    → Yields p m
    → ((a : A) → p a ≡ true → Yields q (f a))
    → Yields q (m >>= f)
unfolding ◌>>=◌
bind-Yields p q m f h k = record {
  yields = λ environ. elim (Result-cases (m environ).0) [
    | inl (a, e) ↦ rw e ((k a (sym (ap (passes p) e) ∙ h.yields environ)).yields (m environ).1)
    | inr (e, d) ↦ rw d refl
  ];
}

any : {A : Type 0} → A → Bool
any a = true

any-Yields : {A : Type 0} (m : C A) → Yields any m
unfolding any
any-Yields m = record {
  yields = λ environ. elim (Result-cases (m environ).0) [
    | inl (a, e) ↦ rw e refl
    | inr (e, d) ↦ rw d refl
  ];
}

choose_available-usable :
    (keys : AiKeys) → passes is_usable (choose_available keys (available keys)) ≡ true
unfolding choose_available available select key_of is_usable enabled_choice disabled_choice
choose_available-usable keys = elim (Bool-cases (keys.openai =? "")) [
  | inl o ↦ elim (Bool-cases (keys.gemini =? "")) [
    | inl g ↦ elim (Bool-cases (keys.anthropic =? "")) [
      | inl a ↦ rw (o, g, a) refl
      | inr a ↦ rw (o, g, a) (rw a refl)
    ]
    | inr g ↦ elim (Bool-cases (keys.anthropic =? "")) [
      | inl a ↦ rw (o, g, a) (rw g refl)
      | inr a ↦ rw (o, g, a) (rw o refl)
    ]
  ]
  | inr o ↦ elim (Bool-cases (keys.gemini =? "")) [
    | inl g ↦ elim (Bool-cases (keys.anthropic =? "")) [
      | inl a ↦ rw (o, g, a) (rw o refl)
      | inr a ↦ rw (o, g, a) (rw o (rw o refl))
    ]
    | inr g ↦ rw (o, g) (rw o (rw o refl))
  ]
]

choose_explicit-usable :
    (explicit : String) (keys : AiKeys) → passes is_usable (choose_explicit explicit keys) ≡ true
unfolding choose_explicit is_usable enabled_choice disabled_choice
choose_explicit-usable explicit keys = elim (Bool-cases (is_disabling explicit)) [
  | inl d ↦ elim (Bool-cases (is_provider explicit)) [
    | inl p ↦ rw (p, d) refl
    | inr p ↦ rw (p, d) refl
  ]
  | inr d ↦ elim (Bool-cases (is_provider explicit)) [
    | inl p ↦ elim (Bool-cases (key_of explicit keys =? "")) [
      | inl k ↦ rw (p, d, k) refl
      | inr k ↦ rw (p, d, k) (rw (p, k) refl)
    ]
    | inr p ↦ rw (p, d) refl
  ]
]

choose-usable : (explicit : String) (keys : AiKeys) → passes is_usable (choose explicit keys) ≡ true
unfolding choose
choose-usable explicit keys = elim (Bool-cases (explicit =? "")) [
  | inl e ↦ rw e (choose_available-usable keys)
  | inr e ↦ rw e (choose_explicit-usable explicit keys)
]

check_role_complete :
    (provider model api_key : String)
    → passes is_complete (check_role provider model api_key) ≡ true
unfolding check_role is_complete
check_role_complete provider model api_key = elim (Bool-cases (provider =? "")) [
  | inl p ↦ elim (Bool-cases (model =? "")) [
    | inl m ↦ elim (Bool-cases (api_key =? "")) [
      | inl k ↦ rw (p, m, k) refl
      | inr k ↦ rw (p, m, k) refl
    ]
    | inr m ↦ rw (p, m) refl
  ]
  | inr p ↦ elim (Bool-cases (model =? "")) [
    | inl m ↦ rw (p, m) refl
    | inr m ↦ elim (Bool-cases (api_key =? "")) [
      | inl k ↦ rw (p, m, k) refl
      | inr k ↦ elim (Bool-cases (provider =? "google")) [
        | inl g ↦ elim (Bool-cases (is_provider provider)) [
          | inl q ↦ rw (p, m, k, q, g) (rw (m, k) refl)
          | inr q ↦ rw (p, m, k, q, g) (rw (m, k) refl)
        ]
        | inr g ↦ elim (Bool-cases (is_provider provider)) [
          | inl q ↦ rw (p, m, k, g, q) (rw (p, m, k, q) refl)
          | inr q ↦ rw (p, m, k, g, q) refl
        ]
      ]
    ]
  ]
]

module _ (choice : AiChoice) (model : String) (planning coding : AiRole)
    (u : is_usable choice ≡ true) (p : is_complete planning ≡ true)
    (c : is_complete coding ≡ true) where
  settings-consistent :
      ((planning.provider =? "") && (coding.provider =? "")) || choice.enabled ≡ true
      → is_consistent
          (record { choice = choice; model = model; planning = planning; coding = coding })
        ≡ true
  unfolding is_consistent
  settings-consistent o = rw (u, p, c, o) refl

  check_settings-consistent :
      passes is_consistent (check_settings choice model planning coding) ≡ true
  unfolding check_settings
  check_settings-consistent =
      elim (Bool-cases ((planning.provider =? "") && (coding.provider =? ""))) [
        | inl b ↦ simp b (settings-consistent (rw b refl))
        | inr b ↦ elim (Bool-cases choice.enabled) [
          | inl e ↦ simp (b, e) (settings-consistent (rw (b, e) refl))
          | inr e ↦ rw (b, e) refl
        ]
      ]

role-Yields : (role : String) → Yields is_complete (resolve_overlay_ai_role role)
unfolding resolve_overlay_ai_role
role-Yields role = bind-Yields any is_complete _ _ (any-Yields _) (λ provider _.
    bind-Yields any is_complete _ _ (any-Yields _) (λ model _.
      bind-Yields any is_complete _ _ (any-Yields _) (λ api_key _.
        lift-Yields is_complete _
          (check_role_complete (lower (strip provider)) (strip model) (strip api_key)))))

choice-Yields : Yields is_usable resolve_ai_provider_and_keys
unfolding resolve_ai_provider_and_keys
choice-Yields = bind-Yields any is_usable _ _ (any-Yields _) (λ openai _.
    bind-Yields any is_usable _ _ (any-Yields _) (λ gemini _.
      bind-Yields any is_usable _ _ (any-Yields _) (λ anthropic _.
        bind-Yields any is_usable _ _ (any-Yields _) (λ explicit _. lift-Yields is_usable _ (
          choose-usable (lower (strip explicit))
            (record { openai = openai; gemini = gemini; anthropic = anthropic }))))))

settings-Yields : Yields is_consistent load_ai_settings
unfolding load_ai_settings
settings-Yields = bind-Yields is_usable is_consistent _ _ choice-Yields (λ choice u.
    bind-Yields any is_consistent _ _ (any-Yields _) (λ model _.
      bind-Yields is_complete is_consistent _ _ (role-Yields "PLANNING") (λ planning p.
        bind-Yields is_complete is_consistent _ _ (role-Yields "CODING") (λ coding c.
          lift-Yields is_consistent _
            (check_settings-consistent choice model planning coding u p c)))))

-- The settings that are loaded from the environment, if they are, are consistent: an enabled default
-- provider is one of the three and has a key, and one that is not enabled is "none"; each role is not
-- set at all or has one of the three providers, a model and a key; and no role is set unless the
-- default provider is enabled.
pub load_ai_settings-consistent :
    (environ : Environ) (settings : AiSettings)
    → (load_ai_settings environ).0 ≡ ok settings
    → is_consistent settings ≡ true
load_ai_settings-consistent environ settings e =
    sym (ap (passes is_consistent) e) ∙ settings-Yields.yields environ
