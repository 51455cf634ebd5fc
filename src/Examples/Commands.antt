-- ===== src/Examples/Commands.antt =====
-- The theorems on the texts of commands, applied.
use hyprbot.Telegram.Commands.{
  start_arg, deep_link_param, wizard, command_remainder, is_provider_name,
}
use hyprbot.Telegram.Commands.DeepLink.{start_arg-deep_link_param}
use hyprbot.Telegram.Commands.Words.{command_remainder-append, is_provider_name-IsWord}
use hyprbot.Worker.{reply_text}
use hyprbot.Worker.Replies.{reply_text-length}
use hyprbot.Strings.{trim_space}
use hyprbot.Strings.Trim.{IsWord}
use hyprbot.Prelude.{refl, true, length, [], ◌∷◌, arith, ◌≤◌, Text, text, ◌≡◌, ◌++◌, negsuc}

start_arg-deep_link_param_example :
    start_arg (deep_link_param (negsuc 1000000)) ≡ wizard (negsuc 1000000)
start_arg-deep_link_param_example = start_arg-deep_link_param (negsuc 1000000) (omega arith)

-- "gpt"
abbrev word : Text
word = 103 ∷ 112 ∷ 116 ∷ []

word_accepted : is_provider_name word ≡ true
unfolding is_provider_name
word_accepted = refl

word-IsWord : IsWord word
word-IsWord = is_provider_name-IsWord word word_accepted

command_remainder-append_example :
    trim_space (command_remainder (word ++ 32 ∷ text "hello")) ≡ trim_space (text "hello")
command_remainder-append_example = command_remainder-append word (text "hello") word-IsWord

reply_text-length_example :
    (1 ≤ length (reply_text (text " 42 "))) × (length (reply_text (text " 42 ")) ≤ 4000)
reply_text-length_example = reply_text-length (text " 42 ")
