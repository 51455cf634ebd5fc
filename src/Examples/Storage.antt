-- ===== src/Examples/Storage.antt =====
-- The theorems on internal/storage, applied.
use hyprbot.Storage.Tables.{ProviderInstance, Preset}
use hyprbot.Storage.Statements.{
  find_provider, upsert_provider, delete_provider, is_provider, find_preset, upsert_preset,
  delete_preset, is_preset, find_chat, join_provider,
}
use hyprbot.Storage.Store.{
  preset_with_provider, insert_provider_row, insert_preset_row, chat_key_holds, preset_keys_hold,
}
use hyprbot.Storage.Columns.{Columns, provider_columns, preset_column, json_column, json_or_null}
use hyprbot.Storage.Lookups.Inserted.{
  Finds, row_of, find_provider-insert_provider_row, FindsPreset, preset_row,
  find_preset-insert_preset_row,
}
use hyprbot.Storage.Lookups.{find_provider-delete_provider, find_preset-delete_preset}
use hyprbot.Storage.Ownership.Joined.{preset_with_provider_owned}
use hyprbot.Examples.States.{gpt, short, stored, stored-IsOwned}
use hyprbot.Prelude.{
  Text, text_has_eq, int_has_eq, none, ◌&&◌, some, ◌==◌, if◌then◌else◌, ok, [], refl, text_eq, ◌∷◌,
  ◌≡◌, pos, text,
}

abbrev local : ProviderInstance
local = record gpt { id = 0; name = text "local" }

local_written : (insert_provider_row 9 local stored).0 ≡ ok tt
unfolding insert_provider_row provider_columns json_column json_or_null chat_key_holds find_chat
local_written = refl

find_provider-insert_provider_row_example :
    (c : Columns) × (provider_columns stored local ≡ some c)
    × Finds stored (insert_provider_row 9 local stored).1 (row_of 9 local c stored)
find_provider-insert_provider_row_example =
    find_provider-insert_provider_row 9 local stored local_written

find_provider-delete_provider_example :
    find_provider (pos 5) (text "gpt") (delete_provider (pos 5) (text "local") (gpt ∷ local ∷ []))
    ≡ (if pos 5 == pos 5 && text "gpt" == text "local"
        then none
        else find_provider (pos 5) (text "gpt") (gpt ∷ local ∷ []))
find_provider-delete_provider_example =
    find_provider-delete_provider (pos 5) (text "local") (pos 5) (text "gpt") (gpt ∷ local ∷ [])

short_written : (insert_preset_row 9 short stored).0 ≡ ok tt
unfolding insert_preset_row preset_column json_column preset_keys_hold find_chat join_provider
short_written = refl

find_preset-insert_preset_row_example :
    (t : Text) × (preset_column stored short ≡ some t)
    × FindsPreset stored (insert_preset_row 9 short stored).1 (preset_row 9 short t)
find_preset-insert_preset_row_example = find_preset-insert_preset_row 9 short stored short_written

find_preset-delete_preset_example :
    find_preset (pos 5) (text "short") (delete_preset (pos 5) (text "short") (short ∷ [])) ≡ (
      if pos 5 == pos 5 && text "short" == text "short"
      then none
      else find_preset (pos 5) (text "short") (short ∷ []))
find_preset-delete_preset_example =
    find_preset-delete_preset (pos 5) (text "short") (pos 5) (text "short") (short ∷ [])

abbrev long : Preset
long = record short { name = text "long" }

stored_preset :
    preset_with_provider (pos 5) (text "short") stored
    ≡ ok (record { preset = short; provider = gpt })
unfolding preset_with_provider find_preset hyprbot.Storage.Statements.join_provider text text_eq
stored_preset = refl

preset_with_provider_owned_example : (short.chat_id ≡ pos 5) × (gpt.chat_id ≡ pos 5)
preset_with_provider_owned_example =
    preset_with_provider_owned (pos 5) (text "short") stored
      (record { preset = short; provider = gpt }) stored-IsOwned stored_preset
