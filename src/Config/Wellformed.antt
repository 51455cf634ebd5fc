-- ===== src/Config/Wellformed.antt =====
-- What `Load` of internal/config/config.go has tested of a configuration that it returns.
use hyprbot.Config.{CryptoConfig, Env, load_crypto_config}
use hyprbot.Config.Load.{
  Config, load, read_config, check_config, with_crypto, is_access_mode, is_app_mode, access_public,
  access_private, mode_all, mode_webhook, mode_worker,
}
use hyprbot.Config.Accepted.{new_manager-load_crypto_config}
use hyprbot.Crypto.Manager.{new_manager}
use hyprbot.Prelude.Map.{Map}
use hyprbot.Prelude.{
  refl, subst, err, ℤ, Result, Option, text_has_eq, inr, text_eq_iff, not, inl, ◌&&◌, ◌==◌,
  Bool-cases, is_positive, arith, ◌⊎◌, false, true, ok, Text, ◌≡◌, is_empty,
}

pub record IsWellformed (c : Config) : Type 0 where
  pub token : is_empty c.bot_token ≡ false
  pub access : (c.bot_access_mode ≡ access_public) ⊎ (c.bot_access_mode ≡ access_private)
  pub admin : c.bot_access_mode ≡ access_private → is_positive c.admin_user_id ≡ true
  pub dsn : is_empty c.db.dsn ≡ false
  pub mode : (c.app_mode ≡ mode_all) ⊎ (c.app_mode ≡ mode_webhook) ⊎ (c.app_mode ≡ mode_worker)
  pub keys :
      new_manager c.crypto.current_key_id c.crypto.keys
      ≡ ok (record { current_key_id = c.crypto.current_key_id; keys = c.crypto.keys })

access_cases : (m : Text) → is_access_mode m ≡ true → (m ≡ access_public) ⊎ (m ≡ access_private)
access_cases m h = elim (Bool-cases (m == access_public)) [
  | inl q ↦ inl (ground (arith, text_eq_iff m access_public))
  | inr q ↦ inr (ground (arith, text_eq_iff m access_private))
]

mode_cases :
    (m : Text) → is_app_mode m ≡ true → (m ≡ mode_all) ⊎ (m ≡ mode_webhook) ⊎ (m ≡ mode_worker)
mode_cases m h = elim (Bool-cases (m == mode_all)) [
  | inl q ↦ inl (ground (arith, text_eq_iff m mode_all))
  | inr q ↦ elim (Bool-cases (m == mode_webhook)) [
    | inl q' ↦ inr (inl (ground (arith, text_eq_iff m mode_webhook)))
    | inr q' ↦ inr (inr (ground (arith, text_eq_iff m mode_worker)))
  ]
]

-- The tests that were passed.
abbrev Passed : Config → Type 0
Passed c =
    (is_empty c.bot_token ≡ false)
    × (is_access_mode c.bot_access_mode ≡ true)
    × ((c.bot_access_mode == access_private && not (is_positive c.admin_user_id)) ≡ false)
    × (is_empty c.db.dsn ≡ false)
    × (is_app_mode c.app_mode ≡ true)

check_config-Passed : (c : Config) (x : Unit {0}) → check_config c ≡ ok x → Passed c
unfolding check_config
check_config-Passed c x h = ground arith

finished-IsWellformed :
    (unmarshal : Text → Option (Map Text Text)) (env : Env) (c₀ c : Config)
    (k : Result CryptoConfig)
    → Passed c₀
    → load_crypto_config unmarshal env ≡ k
    → with_crypto c₀ k ≡ ok c
    → IsWellformed c
finished-IsWellformed unmarshal env c₀ c (err e) p q h = absurd (ground arith)
finished-IsWellformed unmarshal env c₀ c (ok cc) p q h =
    let same : record c₀ { crypto = cc } ≡ c = ground arith in
    subst IsWellformed same (record {
      token = p.0;
      access = access_cases c₀.bot_access_mode p.1;
      admin = λ e. ground (arith, text_eq_iff c₀.bot_access_mode access_private);
      dsn = p.3;
      mode = mode_cases c₀.app_mode p.4;
      keys = new_manager-load_crypto_config unmarshal env cc q;
    })

-- A configuration that Load returns has a bot token and a DSN, one of the two access modes and
-- one of the three application modes, a positive identifier of the administrator where the
-- access is private, and keys and a current identifier that NewManager accepts and keeps as they
-- are.
pub load-IsWellformed :
    (parse_duration : Text → Option ℤ) (unmarshal : Text → Option (Map Text Text))
    (hostname : Option Text) (env : Env) (c : Config)
    → load parse_duration unmarshal hostname env ≡ ok c
    → IsWellformed c
unfolding load
load-IsWellformed parse_duration unmarshal hostname env c h =
    by_check (check_config (read_config parse_duration unmarshal hostname env)) refl h
  where
    by_check :
        (r : Result (Unit {0}))
        → check_config (read_config parse_duration unmarshal hostname env) ≡ r
        → elim r [
          | err e ↦ err e
          | ok x ↦
              with_crypto
                (read_config parse_duration unmarshal hostname env)
                (load_crypto_config unmarshal env)
        ]
          ≡ ok c
        → IsWellformed c
    by_check (err e) q k = absurd (ground arith)
    by_check (ok x) q k =
        finished-IsWellformed unmarshal env (read_config parse_duration unmarshal hostname env) c
          (load_crypto_config unmarshal env)
          (check_config-Passed (read_config parse_duration unmarshal hostname env) x q) refl k
