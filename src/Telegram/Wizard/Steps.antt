-- ===== src/Telegram/Wizard/Steps.antt =====
-- The states that `privateText` of internal/telegram/handlers.go passes through.
use hyprbot.Telegram.Service.{Service, WizardState}
use hyprbot.Telegram.Commands.{normalize_provider_kind, is_provider_name}
use hyprbot.Telegram.Commands.Kinds.{normalize_provider_kind-cases}
use hyprbot.Telegram.Wizard.Dialogue.{first_state}
use hyprbot.Telegram.Wizard.{
  Stage, kind, name, base_url, endpoint, headers, api_key, stage_of, move, move_at, kind_move,
  name_move, base_url_move, endpoint_move, headers_move, Move, advance, finish, is_mode, is_openai,
}
use hyprbot.Prelude.{
  ◌∙◌, subst, ℤ, ◌==◌, text_has_eq, inr, arith, Bool, inl, none, is_empty, if◌then◌else◌, false,
  refl, [], text_eq, true, ◌⊎◌, some, ◌≡◌, text, Text, Option,
}
use hyprbot.Strings.{trim_space, to_lower}

-- What is known of a state, by its stage.
abbrev pub HasKind : WizardState → Type 0
HasKind st = (st.kind ≡ text "openai_compat") ⊎ (st.kind ≡ text "custom_http")

abbrev pub HasName : WizardState → Type 0
HasName st = is_provider_name st.name ≡ true

-- An OpenAI provider has one of the two endpoint modes.
abbrev pub HasMode : WizardState → Type 0
HasMode st = is_openai st.kind ≡ true → is_mode st.endpoint ≡ true

abbrev pub Knows : Option Stage → WizardState → Type 0
Knows none st = Unit
Knows (some kind) st = Unit
Knows (some name) st = HasKind st
Knows (some base_url) st = HasKind st × HasName st
Knows (some endpoint) st = HasKind st × HasName st
Knows (some headers) st = HasKind st × HasName st × (is_openai st.kind ≡ false)
Knows (some api_key) st = HasKind st × HasName st × HasMode st

abbrev pub IsSound : WizardState → Type 0
IsSound st = Knows (stage_of st.step) st

-- What a move leaves behind: a sound state for the same chat.
abbrev pub Follows : WizardState → Move → Type 0
Follows st (advance st' t) = IsSound st' × (st'.target_chat_id ≡ st.target_chat_id)
Follows st m = Unit

stage_name : stage_of (text "name") ≡ some name
unfolding stage_of text text_eq
stage_name = refl

stage_base_url : stage_of (text "base_url") ≡ some base_url
unfolding stage_of text text_eq
stage_base_url = refl

stage_endpoint : stage_of (text "endpoint") ≡ some endpoint
unfolding stage_of text text_eq
stage_endpoint = refl

stage_headers : stage_of (text "headers") ≡ some headers
unfolding stage_of text text_eq
stage_headers = refl

stage_api_key : stage_of (text "api_key") ≡ some api_key
unfolding stage_of text text_eq
stage_api_key = refl

Follows-if :
    (st : WizardState) (b : Bool) (m n : Move)
    → (b ≡ true → Follows st m)
    → (b ≡ false → Follows st n)
    → Follows st (if b then m else n)
Follows-if st true m n h k = h refl
Follows-if st false m n h k = k refl

not_empty :
    (k : Text)
    → (k ≡ []) ⊎ ((k ≡ text "openai_compat") ⊎ (k ≡ text "custom_http"))
    → is_empty k ≡ false
    → (k ≡ text "openai_compat") ⊎ (k ≡ text "custom_http")
not_empty k (inl e) h = absurd (ground arith)
not_empty k (inr e) h = e

module _ (v : Service) (st : WizardState) (t : Text) where
  kind-Follows : Follows st (kind_move v st t)
  unfolding kind_move
  kind-Follows =
      Follows-if st (is_empty (normalize_provider_kind t)) _ _ (λ e. tt)
        (λ e. (rw stage_name (not_empty _ (normalize_provider_kind-cases t) e), refl))

  name-Follows : HasKind st → Follows st (name_move v st t)
  unfolding name_move
  name-Follows h =
      Follows-if st (is_provider_name t) _ _ (λ e. (rw stage_base_url (h, e), refl)) (λ e. tt)

  base_url-Follows : HasKind st × HasName st → Follows st (base_url_move v st t)
  unfolding base_url_move
  base_url-Follows (h, n) =
      Follows-if st (is_openai st.kind) _ _ (λ e. (rw stage_endpoint (h, n), refl))
        (λ e. (rw stage_headers (h, n, e), refl))

  endpoint-Follows : HasKind st × HasName st → Follows st (endpoint_move v st t)
  unfolding endpoint_move
  endpoint-Follows (h, n) =
      Follows-if st (is_mode (to_lower (trim_space t))) _ _
        (λ e. (rw stage_api_key (h, n, λ _. e), refl)) (λ e. tt)

  headers-Follows :
      HasKind st × HasName st × (is_openai st.kind ≡ false) → Follows st (headers_move v st t)
  unfolding headers_move
  headers-Follows (h, n, c) =
      Follows-if st (t == text "-") _ _
        (λ e. (rw stage_api_key (h, n, λ o. absurd (ground arith)), refl))
        (λ e.
          Follows-if st (v.is_headers_json t) _ _
            (λ e'. (rw stage_api_key (h, n, λ o. absurd (ground arith)), refl)) (λ e'. tt))

  move_at-Follows : (g : Option Stage) → Knows g st → Follows st (move_at v g st t)
  move_at-Follows none h = tt
  move_at-Follows (some kind) h = kind-Follows
  move_at-Follows (some name) h = name-Follows h
  move_at-Follows (some base_url) h = base_url-Follows h
  move_at-Follows (some endpoint) h = endpoint-Follows h
  move_at-Follows (some headers) h = headers-Follows h
  move_at-Follows (some api_key) h = tt

  pub move-Follows : IsSound st → Follows st (move v st t)
  unfolding move
  move-Follows h = move_at-Follows (stage_of st.step) h

abbrev pub Finished : WizardState → Move → Type 0
Finished st (finish key) = HasKind st × HasName st × HasMode st
Finished st m = Unit

Finished-if :
    (st : WizardState) (b : Bool) (m n : Move)
    → Finished st m
    → Finished st n
    → Finished st (if b then m else n)
Finished-if st true m n h k = h
Finished-if st false m n h k = k

finish-Finished :
    (v : Service) (st : WizardState) (t : Text) (g : Option Stage)
    → Knows g st
    → Finished st (move_at v g st t)
unfolding kind_move name_move base_url_move endpoint_move headers_move
finish-Finished v st t none h = tt
finish-Finished v st t (some kind) h =
    Finished-if st (is_empty (normalize_provider_kind t)) _ _ tt tt
finish-Finished v st t (some name) h = Finished-if st (is_provider_name t) _ _ tt tt
finish-Finished v st t (some base_url) h = Finished-if st (is_openai st.kind) _ _ tt tt
finish-Finished v st t (some endpoint) h =
    Finished-if st (is_mode (to_lower (trim_space t))) _ _ tt tt
finish-Finished v st t (some headers) h =
    Finished-if st (t == text "-") _ _ tt (Finished-if st (v.is_headers_json t) _ _ tt tt)
finish-Finished v st t (some api_key) h = h

-- The states of a wizard that was begun for a chat, one text of the user after the other.
pub data Reaches (v : Service) (chat_id : ℤ) : WizardState → Type 0 where
  begun : Reaches v chat_id (first_state chat_id)
  answered :
      {st st' : WizardState} (t r : Text)
      → Reaches v chat_id st
      → move v st t ≡ advance st' r
      → Reaches v chat_id st'

stage_kind : stage_of (text "kind") ≡ some kind
unfolding stage_of text text_eq
stage_kind = refl

reached_IsSound :
    (v : Service) (chat_id : ℤ) (st : WizardState)
    → Reaches v chat_id st
    → IsSound st × (st.target_chat_id ≡ chat_id)
reached_IsSound v chat_id _ begun = (rw stage_kind tt, refl)
reached_IsSound v chat_id _ (answered {st} {st'} t r before e) =
    let (sound, same) = reached_IsSound v chat_id st before in
    let (next, kept) = subst (Follows st) e (move-Follows v st t sound) in (next, kept ∙ same)

-- When a dialogue that was begun for a chat comes to its end, after whatever texts, its state is for
-- that chat, has one of the two kinds and a valid name, and has one of the two endpoint modes if the
-- kind is OpenAI's.
pub wizard_complete :
    (v : Service) (chat_id : ℤ) (st : WizardState) (t key : Text)
    → Reaches v chat_id st
    → move v st t ≡ finish key
    → HasKind st × HasName st × HasMode st × (st.target_chat_id ≡ chat_id)
unfolding move
wizard_complete v chat_id st t key before e =
    let (sound, same) = reached_IsSound v chat_id st before in
    let (k, n, m) = subst (Finished st) e (finish-Finished v st t (stage_of st.step) sound) in
    (k, n, m, same)
