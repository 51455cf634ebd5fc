-- ===== src/Config.antt =====
-- `loadCryptoConfig` of internal/config/config.go: the master keys in the environment.
pub mod Accepted
pub mod Load
pub mod Wellformed
use hyprbot.Prelude.Map
use hyprbot.Prelude.Map.{Map}
use hyprbot.Encoding.Base64
use hyprbot.Strings.{trim_space, is_blank, strip_prefix}
use hyprbot.Prelude.{
  length, eqb, text_has_eq, failed, [], ◌||◌, ok, ◌∷◌, is_empty, err, ℕ, none, ◌==◌, if◌then◌else◌,
  text, Result, List, some, Option, Text,
}

-- config.CryptoConfig
pub record CryptoConfig : Type 0 where
  pub current_key_id : Text
  pub keys : Map Text (List ℕ)

-- The environment, by its names. Go's maps are gone through in an unknown order: here it is the order
-- of the list.
abbrev pub Env : Type 0
Env = Map Text Text

-- `mustEnv`
unfoldable pub must_env_or : Env → Text → Text → Text
must_env_or env name def = elim (Map.lookup name env) [
  | none ↦ def
  | some v ↦ if is_empty v then def else trim_space v
]

-- `mustEnv` with the empty default.
unfoldable pub must_env : Env → Text → Text
unfolding must_env_or
must_env env name = must_env_or env name []

-- `strings.TrimSuffix` of a text that has the suffix, and `none` where `strings.HasSuffix` fails.
unfoldable pub strip_suffix : Text → Text → Option Text
strip_suffix suffix [] = if is_empty suffix then some [] else none
strip_suffix suffix (c ∷ s) =
    let rest = strip_suffix suffix s in
    if (c ∷ s) == suffix then some [] else elim rest [ none ↦ none | some t ↦ some (c ∷ t) ]

abbrev pub or_same : Text → Option Text → Text
or_same s none = s
or_same s (some t) = t

-- The identifier in the name of a variable MASTER_KEY_<id>_B64, `none` where the loop goes on.
abbrev id_in : Text → Option Text → Option Text → Option Text
id_in k none suffixed = none
id_in k (some rest) none = none
id_in k (some rest) (some _) =
    if k == text "MASTER_KEY_B64"
    then none
    else some (or_same rest (strip_suffix (text "_B64") rest))

unfoldable pub variable_id : Text → Option Text
unfolding strip_suffix
variable_id k = id_in k (strip_prefix (text "MASTER_KEY_") k) (strip_suffix (text "_B64") k)

-- The entries of MASTER_KEYS_JSON.
unfoldable pub add_parsed : Map Text Text → Map Text Text → Map Text Text
add_parsed [] m = m
add_parsed ((id, v) ∷ parsed) m =
    add_parsed parsed (if is_blank id || is_blank v then m else Map.insert id v m)

abbrev pub add_variable : Option Text → Text → Map Text Text → Map Text Text
add_variable none v m = m
add_variable (some id) v m = if is_empty id || is_empty v then m else Map.insert id v m

-- The loop over `os.Environ()`.
unfoldable pub add_variables : Env → Map Text Text → Map Text Text
add_variables [] m = m
add_variables ((k, v) ∷ env) m = add_variables env (add_variable (variable_id k) v m)

abbrev pub prepend : Text → List ℕ → Result (Map Text (List ℕ)) → Result (Map Text (List ℕ))
prepend id raw (ok keys) = ok ((id, raw) ∷ keys)
prepend id raw (err e) = err e

abbrev pub with_decoded :
    Text → Option (List ℕ) → Result (Map Text (List ℕ)) → Result (Map Text (List ℕ))
with_decoded id none rest = err (failed "decode master key")
with_decoded id (some raw) rest =
    if eqb (length raw) 32
    then prepend id raw rest
    else err (failed "master key must be 32 bytes after base64 decode")

-- The loop that decodes the keys.
unfoldable pub decode_keys : Map Text Text → Result (Map Text (List ℕ))
decode_keys [] = ok []
decode_keys ((id, b64) ∷ m) = let rest = decode_keys m in with_decoded id (Base64.decode b64) rest

abbrev pub first_id : Map Text (List ℕ) → Text
first_id [] = []
first_id ((id, _) ∷ keys) = id

-- The end of the function: the current identifier, and its test.
abbrev pub checked : Text → Map Text (List ℕ) → Option (List ℕ) → Result CryptoConfig
checked current keys none = err (failed "MASTER_KEY_CURRENT_ID does not exist in provided keys")
checked current keys (some _) = ok (record { current_key_id = current; keys = keys })

abbrev pub with_keys : Text → Result (Map Text (List ℕ)) → Result CryptoConfig
with_keys current (err e) = err e
with_keys current (ok keys) =
    let id = if is_empty current then first_id keys else current in
    checked id keys (Map.lookup id keys)

-- The singleton of MASTER_KEY_B64.
abbrev pub with_singleton : Text → Text → Map Text Text → Result CryptoConfig
with_singleton current singleton m =
    if is_empty singleton
    then (if is_empty m
        then err (failed "missing master key")
        else with_keys current (decode_keys m))
    else let id = if is_empty current then text "default" else current in
      with_keys id (decode_keys (Map.insert id singleton m))

-- `unmarshal` is `json.Unmarshal` into a `map[string]string`.
module _ (unmarshal : Text → Option (Map Text Text)) where
  abbrev pub parsed_keys : Text → Option (Map Text Text)
  parsed_keys raw = if is_empty raw then some [] else unmarshal raw

  abbrev pub load_from : Env → Option (Map Text Text) → Result CryptoConfig
  load_from env none = err (failed "parse MASTER_KEYS_JSON")
  load_from env (some parsed) =
      with_singleton (must_env env (text "MASTER_KEY_CURRENT_ID"))
        (must_env env (text "MASTER_KEY_B64")) (add_variables env (add_parsed parsed []))

  unfoldable pub load_crypto_config : Env → Result CryptoConfig
  load_crypto_config env = load_from env (parsed_keys (must_env env (text "MASTER_KEYS_JSON")))
