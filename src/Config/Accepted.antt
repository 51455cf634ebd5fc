-- ===== src/Config/Accepted.antt =====
-- `loadCryptoConfig` of internal/config/config.go and `NewManager` of internal/crypto/envelope.go.
use hyprbot.Config.{
  CryptoConfig, Env, must_env, add_parsed, add_variable, variable_id, add_variables, decode_keys,
  with_decoded, first_id, checked, with_keys, with_singleton, load_from, load_crypto_config,
}
use hyprbot.Crypto.Manager.{new_manager, all_32}
use hyprbot.Prelude.Map
use hyprbot.Prelude.Map.{Map}
use hyprbot.Encoding.Base64
use hyprbot.Strings.{is_blank, trim_space}
use hyprbot.Prelude.{
  length, eqb, err, inr, inl, text, subst, Result, ◌==◌, text_has_eq, Bool-cases, [], ◌∷◌, refl,
  text_has_eq, true, ok, arith, if◌then◌else◌, false, ℕ, none, some, is_empty, ◌||◌, ◌≡◌, List,
  Bool, Option, Text,
}

-- No identifier is empty.
abbrev Named {ℓ} : {V : Type ℓ} → Map Text V → Type 0
Named [] = Unit
Named ((id, _) ∷ m) = (is_empty id ≡ false) × Named m

Named-insert :
    {V : Type 0} (id : Text) (v : V) (m : Map Text V)
    → is_empty id ≡ false
    → Named m
    → Named (Map.insert id v m)
unfolding Map.insert
Named-insert id v [] e h = (e, tt)
Named-insert id v ((j, w) ∷ m) e h = elim (Bool-cases (id == j)) [
  | inl q ↦ rw (q, Map.insert) (e, h.1)
  | inr q ↦ rw (q, Map.insert) (h.0, Named-insert id v m e h.1)
]

Named-if :
    {V : Type 0} (b : Bool) (m n : Map Text V)
    → Named m
    → (b ≡ false → Named n)
    → Named (if b then m else n)
Named-if true m n h k = h
Named-if false m n h k = k refl

default_named : is_empty (text "default") ≡ false
unfolding text
default_named = refl

not_blank : (id v : Text) → (is_blank id || is_blank v) ≡ false → is_empty id ≡ false
unfolding is_blank trim_space hyprbot.Strings.trim_left hyprbot.Strings.trim_right
not_blank [] v h = absurd (ground arith)
not_blank (c ∷ id) v h = refl

not_empty : (id v : Text) → (is_empty id || is_empty v) ≡ false → is_empty id ≡ false
not_empty [] v h = absurd (ground arith)
not_empty (c ∷ id) v h = refl

Named-add_parsed : (parsed m : Map Text Text) → Named m → Named (add_parsed parsed m)
unfolding add_parsed
Named-add_parsed [] m h = h
Named-add_parsed ((id, v) ∷ parsed) m h =
    Named-add_parsed parsed _
      (Named-if (is_blank id || is_blank v) _ _ h (λ e. Named-insert id v m (not_blank id v e) h))

Named-add_variable :
    (o : Option Text) (v : Text) (m : Map Text Text) → Named m → Named (add_variable o v m)
Named-add_variable none v m h = h
Named-add_variable (some id) v m h =
    Named-if (is_empty id || is_empty v) _ _ h (λ e. Named-insert id v m (not_empty id v e) h)

Named-add_variables : (env m : Map Text Text) → Named m → Named (add_variables env m)
unfolding add_variables
Named-add_variables [] m h = h
Named-add_variables ((k, v) ∷ env) m h =
    Named-add_variables env _ (Named-add_variable (variable_id k) v m h)

abbrev Good : Map Text (List ℕ) → Type 0
Good keys = Named keys × (all_32 keys ≡ true)

with_decoded-Good :
    (id : Text) (o : Option (List ℕ)) (rest : Result (Map Text (List ℕ))) (keys : Map Text (List ℕ))
    → is_empty id ≡ false
    → ((ks : Map Text (List ℕ)) → rest ≡ ok ks → Good ks)
    → with_decoded id o rest ≡ ok keys
    → Good keys
unfolding all_32
with_decoded-Good id none rest keys e k h = absurd (ground arith)
with_decoded-Good id (some raw) (err x) keys e k h = elim (Bool-cases (eqb (length raw) 32)) [
  | inl q ↦ absurd (ground arith)
  | inr q ↦ absurd (ground arith)
]
with_decoded-Good id (some raw) (ok ks) keys e k h = elim (Bool-cases (eqb (length raw) 32)) [
  | inl q ↦
      let (n, a) = k ks refl in
      let same : (id, raw) ∷ ks ≡ keys = ground arith in subst Good same ((e, n), ground arith)
  | inr q ↦ absurd (ground arith)
]

decode_keys-Good :
    (m : Map Text Text) (keys : Map Text (List ℕ)) → Named m → decode_keys m ≡ ok keys → Good keys
unfolding decode_keys all_32
decode_keys-Good [] keys h e = let same : [] ≡ keys = ground arith in subst Good same (tt, refl)
decode_keys-Good ((id, b64) ∷ m) keys h e =
    with_decoded-Good id (Base64.decode b64) (decode_keys m) keys h.0
      (λ ks r. decode_keys-Good m ks h.1 r) e

found_not_empty :
    (id : Text) (keys : Map Text (List ℕ)) (key : List ℕ)
    → Map.lookup id keys ≡ some key
    → is_empty keys ≡ false
unfolding Map.lookup
found_not_empty id [] key h = absurd (ground arith)
found_not_empty id (p ∷ keys) key h = refl

abbrev Accepts : CryptoConfig → Type 0
Accepts c =
    new_manager c.current_key_id c.keys
    ≡ ok (record { current_key_id = c.current_key_id; keys = c.keys })

checked-Accepts :
    (current : Text) (keys : Map Text (List ℕ)) (c : CryptoConfig)
    → is_empty current ≡ false
    → all_32 keys ≡ true
    → checked current keys (Map.lookup current keys) ≡ ok c
    → Accepts c
unfolding new_manager
checked-Accepts current keys c e s h = go (Map.lookup current keys) refl
  where
    go : (o : Option (List ℕ)) → Map.lookup current keys ≡ o → Accepts c
    go none f = absurd (ground arith)
    go (some key) f =
        let same : record { current_key_id = current; keys = keys } ≡ c = ground arith in
        subst Accepts same (rw (e, found_not_empty current keys key f, f, s) refl)

first_id-Accepts :
    (keys : Map Text (List ℕ)) (c : CryptoConfig)
    → Good keys
    → checked (first_id keys) keys (Map.lookup (first_id keys) keys) ≡ ok c
    → Accepts c
unfolding Map.lookup
first_id-Accepts [] c g h = absurd (ground arith)
first_id-Accepts ((id, key) ∷ keys) c g h = checked-Accepts id ((id, key) ∷ keys) c g.0.0 g.1 h

with_keys-Accepts :
    (current : Text) (r : Result (Map Text (List ℕ))) (c : CryptoConfig)
    → ((keys : Map Text (List ℕ)) → r ≡ ok keys → Good keys)
    → with_keys current r ≡ ok c
    → Accepts c
with_keys-Accepts current (err e) c k h = absurd (ground arith)
with_keys-Accepts [] (ok keys) c k h = first_id-Accepts keys c (k keys refl) h
with_keys-Accepts (x ∷ current) (ok keys) c k h =
    checked-Accepts (x ∷ current) keys c refl (k keys refl).1 h

with_singleton-Accepts :
    (current singleton : Text) (m : Map Text Text) (c : CryptoConfig)
    → Named m
    → with_singleton current singleton m ≡ ok c
    → Accepts c
with_singleton-Accepts current [] [] c n h = absurd (ground arith)
with_singleton-Accepts current [] (p ∷ m) c n h =
    with_keys-Accepts current (decode_keys (p ∷ m)) c (λ keys. decode_keys-Good (p ∷ m) keys n) h
with_singleton-Accepts [] (x ∷ singleton) m c n h =
    with_keys-Accepts (text "default") _ c
      (λ keys.
        decode_keys-Good _ keys (Named-insert (text "default") (x ∷ singleton) m default_named n))
      h
with_singleton-Accepts (y ∷ current) (x ∷ singleton) m c n h =
    with_keys-Accepts (y ∷ current) _ c
      (λ keys. decode_keys-Good _ keys (Named-insert (y ∷ current) (x ∷ singleton) m refl n)) h

load_from-Accepts :
    (unmarshal : Text → Option (Map Text Text)) (env : Env) (o : Option (Map Text Text))
    (c : CryptoConfig)
    → load_from unmarshal env o ≡ ok c
    → Accepts c
load_from-Accepts unmarshal env none c h = absurd (ground arith)
load_from-Accepts unmarshal env (some parsed) c h =
    with_singleton-Accepts (must_env env (text "MASTER_KEY_CURRENT_ID")) _ _ c
      (Named-add_variables env _ (Named-add_parsed parsed [] tt)) h

-- Whatever the environment holds, the keys and the current identifier that loadCryptoConfig
-- returns are accepted by NewManager.
pub new_manager-load_crypto_config :
    (unmarshal : Text → Option (Map Text Text)) (env : Env) (c : CryptoConfig)
    → load_crypto_config unmarshal env ≡ ok c
    → new_manager c.current_key_id c.keys
      ≡ ok (record { current_key_id = c.current_key_id; keys = c.keys })
unfolding load_crypto_config
new_manager-load_crypto_config unmarshal env c h = load_from-Accepts unmarshal env _ c h
