-- ===== src/Storage/Ownership/Joined.antt =====
-- GetPresetWithProviderByName and GetProviderByName of internal/storage/repo.go and ownership.
use hyprbot.Storage.Tables.{ProviderInstance, Preset, PresetWithProvider, Db}
use hyprbot.Storage.Statements.{find_provider, is_provider, find_preset, is_preset, join_provider}
use hyprbot.Storage.Store.{preset_with_provider}
use hyprbot.Prelude.{
  refl, eqb, subst, ok, sym, none, ap, ◌∙◌, int_eq_iff, some, Option, inr, inl, ◌≡◌, Bool-cases,
  arith, [], ◌≢◌, ◌∷◌, All, Text, ◌<◌, ℤ, ℕ, List, text_has_eq, int_has_eq,
}
use hyprbot.Storage.Ownership.{OwnRows, UniqueIds, IdsBelow, IsOwned}

-- A provider that is found for a chat.
not_head :
    (q : Preset) (ps : List ProviderInstance)
    → All (λ r. r.id ≢ q.provider_instance_id) ps
    → OwnRows q ps
not_head q [] h = tt
not_head q (p ∷ ps) h = (λ e. absurd (h.0 e), not_head q ps h.1)

found_satisfies :
    (P : ProviderInstance → Type 0) (c : ℤ) (n : Text) (ps : List ProviderInstance)
    (r : ProviderInstance)
    → All P ps
    → find_provider c n ps ≡ some r
    → P r
unfolding find_provider
found_satisfies P c n [] r h e = cc
found_satisfies P c n (p ∷ ps) r h e = elim (Bool-cases (is_provider c n p)) [
  | inl here ↦ let same : p ≡ r = ground arith in subst P same h.0
  | inr there ↦ found_satisfies P c n ps r h.1 (ground arith)
]

-- A preset of a chat that names a provider found for that chat has the provider's rows for its own.
pub find_provider-OwnRows :
    (q : Preset) (name : Text) (ps : List ProviderInstance) (r : ProviderInstance) (k : ℕ)
    → UniqueIds ps
    → IdsBelow k ps
    → find_provider q.chat_id name ps ≡ some r
    → q.provider_instance_id ≡ r.id
    → (q.provider_instance_id < k) × OwnRows q ps
unfolding find_provider
find_provider-OwnRows q name [] r k u b e i = cc
find_provider-OwnRows q name (p ∷ ps) r k u b e i =
    elim (Bool-cases (is_provider q.chat_id name p)) [
      | inl here ↦
          let same : p ≡ r = ground arith in
          let mine : q.provider_instance_id ≡ p.id =
            i ∙ ap (λ (x : ProviderInstance). x.id) (sym same) in
          (
            omega arith,
            (λ _. ground (arith, int_eq_iff p.chat_id q.chat_id), not_head q ps (rw mine u.0)),
          )
      | inr there ↦
          let (lt, own) = find_provider-OwnRows q name ps r k u.1 b.1 (ground arith) i in
          let apart : r.id ≢ p.id =
            found_satisfies (λ x. x.id ≢ p.id) q.chat_id name ps r u.0 (ground arith) in
          (lt, (λ e. absurd (apart (sym i ∙ sym e)), own))
    ]

joined_row :
    (q : Preset) (ps : List ProviderInstance) (r : ProviderInstance)
    → OwnRows q ps
    → join_provider q.provider_instance_id ps ≡ some r
    → r.chat_id ≡ q.chat_id
unfolding join_provider
joined_row q [] r h e = cc
joined_row q (p ∷ ps) r h e = elim (Bool-cases (eqb p.id q.provider_instance_id)) [
  | inl here ↦
      let same : p ≡ r = ground arith in
      ap (λ (x : ProviderInstance). x.chat_id) (sym same) ∙ h.0 (ground arith)
  | inr there ↦ joined_row q ps r h.1 (ground arith)
]

found_preset :
    (P : Preset → Type 0) (c : ℤ) (n : Text) (qs : List Preset) (q : Preset)
    → All P qs
    → find_preset c n qs ≡ some q
    → P q × (q.chat_id ≡ c)
unfolding find_preset
found_preset P c n [] q h e = cc
found_preset P c n (p ∷ qs) q h e = elim (Bool-cases (is_preset c n p)) [
  | inl here ↦
      let same : p ≡ q = ground arith in
      (
        subst P same h.0,
        ap (λ (x : Preset). x.chat_id) (sym same) ∙ ground (arith, int_eq_iff p.chat_id c),
      )
  | inr there ↦ found_preset P c n qs q h.1 (ground arith)
]

-- In a database whose presets belong with providers of their own chats, the preset and the
-- provider that a chat's job is answered with both belong to that chat.
pub preset_with_provider_owned :
    (chat_id : ℤ) (name : Text) (db : Db) (pp : PresetWithProvider)
    → IsOwned db
    → preset_with_provider chat_id name db ≡ ok pp
    → (pp.preset.chat_id ≡ chat_id) × (pp.provider.chat_id ≡ chat_id)
unfolding preset_with_provider
preset_with_provider_owned chat_id name db pp h e = go (find_preset chat_id name db.presets) refl
  where
    by_row :
        (q : Preset) (o : Option ProviderInstance)
        → find_preset chat_id name db.presets ≡ some q
        → join_provider q.provider_instance_id db.providers ≡ o
        → (pp.preset.chat_id ≡ chat_id) × (pp.provider.chat_id ≡ chat_id)
    by_row q none f j = absurd (ground arith)
    by_row q (some r) f j =
        let (own, mine) = found_preset _ chat_id name db.presets q h.owned f in
        let theirs = joined_row q db.providers r own.1 j in ground arith

    go :
        (o : Option Preset)
        → find_preset chat_id name db.presets ≡ o
        → (pp.preset.chat_id ≡ chat_id) × (pp.provider.chat_id ≡ chat_id)
    go none f = absurd (ground arith)
    go (some q) f = by_row q (join_provider q.provider_instance_id db.providers) f refl
