-- ===== src/Lib.antt =====
-- hyprbot, a Telegram bot that passes the questions of chats to language models.
--
-- An update comes in through the processor (internal/telegram/processor.go), which lets only the
-- allowed user in where the bot is private, and drops an update that it has seen. A handler
-- (internal/telegram/handlers.go) checks the rate limit or the rights of an administrator, and
-- changes the database or puts a job into a Redis stream (internal/queue/stream.go). A worker
-- (internal/worker/worker.go) reads jobs, finds the preset and the provider of the chat, decrypts the
-- provider's secrets, asks the provider and sends the answer; it retries a job that fails by
-- putting it into the stream again.
--
-- Which file models what:
--   Prelude: tests, lists, texts, integers, results and maps that the others share.
--   Strings: the functions of Go's strings and strconv that the code calls. A text is its list of
--     code points.
--   Encoding: base64, written out, and encoding/json as a codec with its documented law.
--   Crypto: internal/crypto/envelope.go (NewManager is new_manager, MarshalEncryptedString is
--     marshal_encrypted_string, and so on). AES-GCM is the parameter Aead.
--   Redis: the server as a parameter, a state with the commands that the bot sends; Redis.Commands
--     says what their documentation promises of what can be seen, and Redis.Memory meets it.
--   Storage: internal/storage. Tables holds the rows, Statements what each SQL statement selects or
--     changes, Store the methods (GetProviderByName is get_provider_by_name). Both schemas are
--     modelled: Postgres with its foreign keys and cascades (migrations/00001_init.sql), and SQLite
--     without them (internal/storage/db.go). Columns is what a JSON column holds of a text: on SQLite
--     the text, and on Postgres what the parameter jsonb of the database gives, which may refuse
--     it. Ownership says which chat a row belongs to.
--   System: what the processes share, and the calls that reach it. A method is a function of a
--     world, which holds a schedule of the calls that fail: a call is done, is lost, or takes effect
--     and its answer is lost. System.Keeps and System.Ensures are the rules for invariants and for
--     pre- and postconditions, and System.Calm for those where no call fails.
--   Queue: RateLimiter and Dedupe for internal/queue/ratelimit.go, Stream for
--     internal/queue/stream.go. The expiry of a mark is read as go-redis reads it, so that 0 is none.
--   Providers: internal/providers/registry/registry.go and the constructors of both clients;
--     Attempts is callOnce and the loop of Chat, which both clients repeat.
--   Encoding.Value: the values that encoding/json decodes into any.
--   Providers.Openai and Providers.Custom: the payload, the headers and the reading of answers of
--     internal/providers/openai_compat/client.go and internal/providers/custom_http/client.go.
--   Config: loadCryptoConfig of internal/config/config.go, and Config.Load its Load.
--   Entry: cmd/bot/main.go, as far as it decides something: what a configuration starts, the webhook's
--     URL, and what sanitizeTelegramErr makes of an error.
--   Bot: the whole bot, as a step relation whose steps are an update, a round of the worker and the
--     passing of time. Updates and rounds are atomic.
--   Worker: internal/worker/worker.go. Worker.Loop is consumeLoop; Worker.Loop.Work counts the rounds
--     that the jobs of a stream take, over Queue.Backlog, the stream as a queue.
--     Worker.Answer follows one question to its answer.
--     Queue.Delivery interleaves the calls of any processes to the stream.
--   Telegram: internal/telegram. Commands parses texts, Processor is processor.go, Service is
--     service.go with the helpers of handlers.go, Ask, Admin and Lists are the handlers. Wizard is the
--     dialogue of wizard.go and privateText: its moves are a pure function, and Wizard.Dialogue
--     performs them. Menu is ui.go, Callbacks is callbacks.go, and Dispatch chooses the handler as
--     Register of service.go registers them.
--   Examples: concrete states and servers, and the theorems applied to them.
--
-- Loops: consume_loop runs one round for each identifier of its list, so a theorem on every list is
-- one on any number of rounds; all other loops go over lists. The loop of a client's Chat
-- counts down the attempts that are left. There is no fuel.
--
-- Left out: the HTTP calls themselves, the opening of connections and the servers of the program's
-- entry, logging, and the cancellation of contexts. A Go map is gone through in the order of a list.
-- time.ParseDuration, url.Parse, encoding/json, text/template and AES-GCM are parameters. Integers of Go that
-- only count (attempts, retries) are natural numbers without a bound; identifiers are integers, and
-- the theorem that needs their 64 bits says so. Times are in nanoseconds, and do not overflow;
-- that go-redis sends expiries in whole seconds or milliseconds is not modelled.
pub mod Prelude
pub mod Strings
pub mod Encoding
pub mod Redis
pub mod Storage
pub mod System
pub mod Queue
pub mod Providers
pub mod Worker
pub mod Bot
pub mod Crypto
pub mod Telegram
pub mod Config
pub mod Entry
pub mod Examples
