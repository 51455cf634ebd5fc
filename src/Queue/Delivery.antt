-- ===== src/Queue/Delivery.antt =====
-- The stream of internal/queue/stream.go between processes that enqueue, read and acknowledge in any
-- order.
pub mod Order
pub mod Once
use hyprbot.Redis.{Redis, IsLawful}
use hyprbot.Redis.Commands
use hyprbot.Redis.Commands.{View, Entry, Group, above, ids, last_of, drop_entry}
use hyprbot.Queue.Stream.{AskJob, Message, enqueue, ack, read, ensure_group, decode_entries}
use hyprbot.Queue.Backlog.{lt_le, above_lower, Rising, Rising-append_last}
use hyprbot.System.{Exec, Sys, World}
use hyprbot.System.Keeps.{Keeps, Keeps-call, Keeps-bind, Keeps-pure, Keeps-raise}
use hyprbot.System.Ensures.{Ensures, Ensures-call, Ensures-bind, Ensures-pure}
use hyprbot.Encoding.Json.{Codec}
use hyprbot.Prelude.{
  ℕ, suc, ◌≤◌, ◌<◌, ◌≡◌, refl, List, [], ◌∷◌, ◌++◌, Option, some, none, Text, Result, ok, err,
  arith, take, zero, eqb, ltb, Bool-cases, inl, inr, true, false,
}

-- The identifiers of messages, in their order.
abbrev pub message_ids : List Message → List ℕ
message_ids [] = []
message_ids (m ∷ ms) = m.id ∷ message_ids ms

-- What a read hands out.
abbrev pub handed_ids : Result (List Message) → List ℕ
handed_ids (ok ms) = message_ids ms
handed_ids (err e) = []

-- Identifiers that rise from above `lo`.
abbrev pub Ascends : ℕ → List ℕ → Type 0
Ascends lo [] = Unit
Ascends lo (i ∷ is) = (lo < i) × Ascends i is

-- What the stream's commands see of the server.
abbrev pub SameStream : View → View → Type 0
SameStream v v' = (v.entries ≡ v'.entries) × (v.last_id ≡ v'.last_id) × (v.group ≡ v'.group)

module _ (json : Codec AskJob) {R : Redis} where
  -- A run of any processes: the world before it, the identifiers that reads hand out in it, and the
  -- world after it. Between the calls to the stream, everything else may change.
  pub data Handed : World R → List ℕ → World R → Type 0 where
    idle : (w : World R) → Handed w [] w
    elsewhere :
        (w w₁ w' : World R) (is : List ℕ)
        → SameStream (R.view w.sys.redis) (R.view w₁.sys.redis)
        → Handed w₁ is w'
        → Handed w is w'
    starts : (w w' : World R) (is : List ℕ) → Handed (ensure_group w).1 is w' → Handed w is w'
    enqueues :
        (new_id : Text) (job : AskJob) (w w' : World R) (is : List ℕ)
        → Handed (enqueue json new_id job w).1 is w'
        → Handed w is w'
    acks : (i : ℕ) (w w' : World R) (is : List ℕ) → Handed (ack i w).1 is w' → Handed w is w'
    reads :
        (n : ℕ) (w w' : World R) (is : List ℕ)
        → Handed (read json n w).1 is w'
        → Handed w (handed_ids (read json n w).0 ++ is) w'

pub Ascends-weaken : (lo lo' : ℕ) (is : List ℕ) → lo ≤ lo' → Ascends lo' is → Ascends lo is
Ascends-weaken lo lo' [] h k = tt
Ascends-weaken lo lo' (i ∷ is) h k = (fits k.0, k.1)
  where
    fits : lo' < i → lo < i
    fits l = omega arith

Rising-weaken :
    (lo lo' : ℕ) (es : List Entry) (hi : ℕ) → lo ≤ lo' → Rising lo' es hi → Rising lo es hi
Rising-weaken lo lo' [] hi h k = omega arith
Rising-weaken lo lo' (e ∷ es) hi h k = (fits k.0, k.1)
  where
    fits : lo' < e.id → lo < e.id
    fits l = omega arith

pub Rising-drop_entry :
    (i lo : ℕ) (es : List Entry) (hi : ℕ) → Rising lo es hi → Rising lo (drop_entry i es) hi
unfolding drop_entry
Rising-drop_entry i lo [] hi h = h
Rising-drop_entry i lo (e ∷ es) hi h = elim (Bool-cases (eqb i e.id)) [
  | inl q ↦
      rw (q, drop_entry)
        (Rising-weaken lo e.id _ hi (lt_le lo e.id h.0) (Rising-drop_entry i e.id es hi h.1))
  | inr q ↦ rw (q, drop_entry) (h.0, Rising-drop_entry i e.id es hi h.1)
]

-- Entries that rise from above `lo`, without a bound above.
abbrev pub Climbs : ℕ → List Entry → Type 0
Climbs lo [] = Unit
Climbs lo (e ∷ es) = (lo < e.id) × Climbs e.id es

Climbs-of_Rising : (lo : ℕ) (es : List Entry) (hi : ℕ) → Rising lo es hi → Climbs lo es
Climbs-of_Rising lo [] hi h = tt
Climbs-of_Rising lo (e ∷ es) hi h = (h.0, Climbs-of_Rising e.id es hi h.1)

pub Climbs-above : (d lo : ℕ) (es : List Entry) (hi : ℕ) → Rising lo es hi → Climbs d (above d es)
unfolding above
Climbs-above d lo [] hi h = tt
Climbs-above d lo (e ∷ es) hi h = elim (Bool-cases (ltb d e.id)) [
  | inl q ↦
      let below : d < e.id = ground arith in
      rw (q, above, above_lower d e.id es hi (lt_le d e.id below) h.1)
        (below, Climbs-of_Rising e.id es hi h.1)
  | inr q ↦ rw (q, above) (Climbs-above d e.id es hi h.1)
]

pub Climbs-take : (n lo : ℕ) (es : List Entry) → Climbs lo es → Climbs lo (take n es)
unfolding take
Climbs-take zero lo es h = tt
Climbs-take (suc n) lo [] h = tt
Climbs-take (suc n) lo (e ∷ es) h = (h.0, Climbs-take n e.id es h.1)

pub last_of-le : (lo : ℕ) (es : List Entry) → Climbs lo es → lo ≤ last_of lo es
unfolding last_of
last_of-le lo [] h = omega arith
last_of-le lo (e ∷ es) h = ground (arith, last_of-le e.id es h.1, h.0)

-- The messages of entries that climb ascend, and so do what comes behind the last of them.
pub Ascends-decoded :
    (json : Codec AskJob) (lo : ℕ) (es : List Entry) (is : List ℕ)
    → Climbs lo es
    → Ascends (last_of lo es) is
    → Ascends lo (message_ids (decode_entries json es) ++ is)
unfolding decode_entries last_of
Ascends-decoded json lo [] is h k = k
Ascends-decoded json lo (e ∷ es) is h k =
    by_job (Ascends-decoded json e.id es is h.1 k) (json.unmarshal e.payload) refl
  where
    by_job :
        Ascends e.id (message_ids (decode_entries json es) ++ is)
        → (o : Option AskJob) → json.unmarshal e.payload ≡ o
        → Ascends lo (message_ids (decode_entries json (e ∷ es)) ++ is)
    by_job rest none q = rw (decode_entries, q) (Ascends-weaken lo e.id _ (lt_le lo e.id h.0) rest)
    by_job rest (some job) q = rw (decode_entries, q) (h.0, rest)

-- A group that was given everything up to `floor`; without a group, one that is created now.
abbrev pub Passed : ℕ → View → Option Group → Type 0
Passed floor v none = floor ≤ v.last_id
Passed floor v (some g) = floor ≤ g.last_delivered

-- The identifiers rise, and no entry up to `floor` is handed out any more.
pub record InOrder (floor : ℕ) (v : View) : Type 0 where
  pub low : ℕ
  pub rising : Rising low v.entries v.last_id
  pub passed : Passed floor v v.group
