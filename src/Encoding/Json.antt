-- ===== src/Encoding/Json.antt =====
-- `encoding/json` on one type of values: `json.Marshal` and `json.Unmarshal` as a pair of
-- functions. A model that marshals a type takes its codec as a parameter.
use hyprbot.Prelude.{◌≡◌, Option, some, Text}

pub record Codec (A : Type 0) : Type 0 where
  pub marshal : A → Text
  pub unmarshal : Text → Option A
  -- What `Unmarshal` documents of the output of `Marshal`.
  pub unmarshal-marshal : (a : A) → unmarshal (marshal a) ≡ some a
