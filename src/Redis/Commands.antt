-- ===== src/Redis/Commands.antt =====
-- The documented effect of the Redis commands that the bot sends, on what can be seen of a server:
-- its keys, and the one stream with the one consumer group that the bot is configured with. Times
-- are in nanoseconds, and a key is gone from its deadline on.
use hyprbot.Prelude.{
  ℕ, suc, ◌+◌, Bool, true, false, Option, none, some, List, [], ◌∷◌, ◌++◌, Text, ◌==◌, text_has_eq,
  ltb, leb, eqb, if◌then◌else◌, take,
}
use hyprbot.Strings.Decimal.{format_uint, parse_uint}

pub record Cell : Type 0 where
  pub value : Text
  pub deadline : Option ℕ

-- A stream entry: its identifier, and its `payload` field.
pub record Entry : Type 0 where
  pub id : ℕ
  pub payload : Text

-- A consumer group: the last identifier that it was given, and those that wait for their XACK.
pub record Group : Type 0 where
  pub last_delivered : ℕ
  pub pending : List ℕ

pub record View : Type 0 where
  pub cells : Text → Option Cell
  pub entries : List Entry
  pub last_id : ℕ
  pub group : Option Group

abbrev pub expired : ℕ → Option ℕ → Bool
expired now none = false
expired now (some t) = leb t now

-- The cell of a key, if it is not past its deadline.
abbrev pub live_cell : ℕ → Option Cell → Option Cell
live_cell now none = none
live_cell now (some c) = if expired now c.deadline then none else some c

abbrev pub live : View → ℕ → Text → Option Cell
live v now k = live_cell now (v.cells k)

abbrev pub put : View → Text → Option Cell → View
put v k c = record v { cells = λ j. if j == k then c else v.cells j }

abbrev value_of : Option Cell → Option Text
value_of none = none
value_of (some c) = some c.value

-- GET
abbrev pub get : View → ℕ → Text → Option Text
get v now k = value_of (live v now k)

-- SET with an expiry
abbrev pub set : View → ℕ → Text → Text → ℕ → View
set v now k value ttl = put v k (some (record { value = value; deadline = some (now + ttl) }))

-- The deadline that an expiry gives, `none` without one.
abbrev pub deadline_of : ℕ → Option ℕ → Option ℕ
deadline_of now none = none
deadline_of now (some ttl) = some (now + ttl)

abbrev set_nx_at : Option Cell → View → ℕ → Text → Text → Option ℕ → View × Bool
set_nx_at none v now k value ttl =
    (put v k (some (record { value = value; deadline = deadline_of now ttl })), true)
set_nx_at (some _) v now k value ttl = (v, false)

-- SET with NX, with an expiry or without one; the answer says whether the key was set.
abbrev pub set_nx : View → ℕ → Text → Text → Option ℕ → View × Bool
set_nx v now k value ttl = set_nx_at (live v now k) v now k value ttl

-- DEL
abbrev pub del : View → Text → View
del v k = put v k none

abbrev pub incr_by : Option ℕ → Cell → View → Text → View × Option ℕ
incr_by none c v k = (v, none)
incr_by (some n) c v k = (put v k (some (record c { value = format_uint (suc n) })), some (suc n))

abbrev pub incr_at : Option Cell → View → Text → View × Option ℕ
incr_at none v k = (put v k (some (record { value = format_uint 1; deadline = none })), some 1)
incr_at (some c) v k = incr_by (parse_uint c.value) c v k

-- INCR: a key that is not there counts as 0, a deadline stays, and a value that is no number is an
-- error. The bot increments only keys that it has not set, so negative values do not occur.
abbrev pub incr : View → ℕ → Text → View × Option ℕ
incr v now k = incr_at (live v now k) v k

abbrev pub expire_at : Option Cell → View → ℕ → Text → ℕ → View
expire_at none v now k ttl = v
expire_at (some c) v now k ttl = put v k (some (record c { deadline = some (now + ttl) }))

-- EXPIRE
abbrev pub expire : View → ℕ → Text → ℕ → View
expire v now k ttl = expire_at (live v now k) v now k ttl

-- XGROUP CREATE … $ MKSTREAM; the answer is false for BUSYGROUP. A new group is given only entries
-- that are added after it.
abbrev create_at : Option Group → View → View × Bool
create_at none v =
    (record v { group = some (record { last_delivered = v.last_id; pending = [] }) }, true)
create_at (some _) v = (v, false)

abbrev pub xgroup_create : View → View × Bool
xgroup_create v = create_at v.group v

-- XADD with an identifier of the server's choice, above all earlier ones
abbrev pub xadd : View → Text → View × ℕ
xadd v payload = (
  record v {
    entries = v.entries ++ record { id = suc v.last_id; payload = payload } ∷ [];
    last_id = suc v.last_id;
  },
  suc v.last_id,
)

-- The entries above an identifier.
unfoldable pub above : ℕ → List Entry → List Entry
above i [] = []
above i (e ∷ es) = let rest = above i es in if ltb i e.id then e ∷ rest else rest

unfoldable pub ids : List Entry → List ℕ
ids [] = []
ids (e ∷ es) = e.id ∷ ids es

unfoldable pub last_of : ℕ → List Entry → ℕ
last_of i [] = i
last_of i (e ∷ es) = last_of e.id es

abbrev read_at : Option Group → View → ℕ → View × Option (List Entry)
read_at none v n = (v, none)
read_at (some g) v n =
    let new = take n (above g.last_delivered v.entries) in
    (
      record v {
        group = some (record {
          last_delivered = last_of g.last_delivered new;
          pending = g.pending ++ ids new;
        });
      },
      some new,
    )

-- XREADGROUP … >: at most `n` entries that no consumer of the group has been given; no group is an
-- error. The empty list stands for the nil reply when the block time is over.
abbrev pub xreadgroup : View → ℕ → View × Option (List Entry)
xreadgroup v n = read_at v.group v n

unfoldable pub without : ℕ → List ℕ → List ℕ
without i [] = []
without i (j ∷ js) = let rest = without i js in if eqb i j then rest else j ∷ rest

unfoldable pub drop_entry : ℕ → List Entry → List Entry
drop_entry i [] = []
drop_entry i (e ∷ es) = let rest = drop_entry i es in if eqb i e.id then rest else e ∷ rest

abbrev ack_group : ℕ → Option Group → Option Group
ack_group i none = none
ack_group i (some g) = some (record g { pending = without i g.pending })

-- XACK
abbrev pub xack : View → ℕ → View
xack v i = record v { group = ack_group i v.group }

-- XDEL
abbrev pub xdel : View → ℕ → View
xdel v i = record v { entries = drop_entry i v.entries }
