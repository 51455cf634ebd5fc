-- ===== src/Providers/Http.antt =====
-- What the provider clients of internal/providers have in common: a request with its headers.
use hyprbot.Prelude.Map
use hyprbot.Prelude.Map.{Map}
use hyprbot.Strings.{replace_all}
use hyprbot.Prelude.{text, [], ◌∷◌, text_has_eq, Text}

pub record HttpRequest : Type 0 where
  pub method : Text
  pub url : Text
  pub headers : Map Text Text
  pub body : Text

-- `req.Header.Set`, where `canonical` is `http.CanonicalHeaderKey`.
module _ (canonical : Text → Text) where
  unfoldable pub set_header : Text → Text → Map Text Text → Map Text Text
  set_header k v hs = Map.insert (canonical k) v hs

  -- The loop over `c.cfg.Headers`.
  unfoldable pub set_headers : Text → Map Text Text → Map Text Text → Map Text Text
  unfolding set_header
  set_headers api_key [] hs = hs
  set_headers api_key ((k, v) ∷ more) hs =
      set_headers api_key more (set_header k (replace_all (text "{{api_key}}") api_key v) hs)
