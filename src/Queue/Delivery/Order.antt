-- ===== src/Queue/Delivery/Order.antt =====
-- What the commands of the stream do to its order.
use hyprbot.Queue.Delivery.{
  Passed, InOrder, SameStream, Climbs, Climbs-above, Climbs-take, last_of-le, Rising-drop_entry,
}
use hyprbot.Queue.Backlog.{Rising-append_last}
use hyprbot.Redis.Commands
use hyprbot.Redis.Commands.{View, Entry, Group, above, last_of, ids}
use hyprbot.Prelude.{ℕ, ◌≤◌, ◌≡◌, refl, List, Option, some, none, Text, arith, sym}

pub le_self : (n : ℕ) → n ≤ n
le_self n = omega arith

le_trans : {a b c : ℕ} → a ≤ b → b ≤ c → a ≤ c
le_trans h k = omega arith

pub InOrder-weaken : (f f' : ℕ) (v : View) → f ≤ f' → InOrder f' v → InOrder f v
InOrder-weaken f f' v l h = record {
  low = h.low;
  rising = h.rising;
  passed = by_group v.group h.passed;
}
  where
    by_group : (g : Option Group) → Passed f' v g → Passed f v g
    by_group none k = omega arith
    by_group (some g) k = omega arith

pub InOrder-SameStream : (f : ℕ) (v v' : View) → SameStream v v' → InOrder f v → InOrder f v'
InOrder-SameStream f v v' (e, l, g) h = record {
  low = h.low;
  rising = rw (sym e, sym l) h.rising;
  passed = rw (sym g) (by_group v.group h.passed);
}
  where
    by_group : (g : Option Group) → Passed f v g → Passed f v' g
    by_group none k = rw (sym l) k
    by_group (some g) k = k

pub InOrder-create : (f : ℕ) (v : View) → InOrder f v → InOrder f (Commands.xgroup_create v).0
InOrder-create f v h = by_group v.group refl h.passed
  where
    by_group :
        (g : Option Group) → v.group ≡ g → Passed f v g → InOrder f (Commands.xgroup_create v).0
    by_group none q k = rw q (record { low = h.low; rising = h.rising; passed = k })
    by_group (some g) q k = rw q (record { low = h.low; rising = h.rising; passed = k })

pub InOrder-xadd : (f : ℕ) (v : View) (t : Text) → InOrder f v → InOrder f (Commands.xadd v t).0
InOrder-xadd f v t h = record {
  low = h.low;
  rising = Rising-append_last h.low v.entries v.last_id t h.rising;
  passed = by_group v.group h.passed;
}
  where
    by_group : (g : Option Group) → Passed f v g → Passed f (Commands.xadd v t).0 g
    by_group none k = omega arith
    by_group (some g) k = k

pub InOrder-xack : (f : ℕ) (v : View) (i : ℕ) → InOrder f v → InOrder f (Commands.xack v i)
InOrder-xack f v i h = by_group v.group refl h.passed
  where
    by_group : (g : Option Group) → v.group ≡ g → Passed f v g → InOrder f (Commands.xack v i)
    by_group none q k = record { low = h.low; rising = h.rising; passed = rw q k }
    by_group (some g) q k = record { low = h.low; rising = h.rising; passed = rw q k }

pub InOrder-xdel : (f : ℕ) (v : View) (i : ℕ) → InOrder f v → InOrder f (Commands.xdel v i)
InOrder-xdel f v i h = record {
  low = h.low;
  rising = Rising-drop_entry i h.low v.entries v.last_id h.rising;
  passed = h.passed;
}

-- What a read has given.
abbrev pub Got : ℕ → Option (List Entry) → View → Type 0
Got f none v = InOrder f v
Got f (some es) v = (lo : ℕ) × (f ≤ lo) × Climbs lo es × InOrder (last_of lo es) v

pub Got-read :
    (f : ℕ) (v : View) (n : ℕ)
    → InOrder f v
    → Got f (Commands.xreadgroup v n).1 (Commands.xreadgroup v n).0
Got-read f v n h = by_group v.group refl h.passed
  where
    by_group :
        (g : Option Group)
        → v.group ≡ g
        → Passed f v g
        → Got f (Commands.xreadgroup v n).1 (Commands.xreadgroup v n).0
    by_group none q k = rw q (record { low = h.low; rising = h.rising; passed = k })
    by_group (some g) q k = rw q (
      g.last_delivered,
      k,
      Climbs-take n g.last_delivered _
          (Climbs-above g.last_delivered h.low v.entries v.last_id h.rising),
      record { low = h.low; rising = h.rising; passed = le_self _ },
    )

-- Whatever was given, the floor stays.
pub Got-InOrder : (f : ℕ) (o : Option (List Entry)) (v : View) → Got f o v → InOrder f v
Got-InOrder f none v h = h
Got-InOrder f (some es) v (lo, l, c, h) =
    InOrder-weaken f (last_of lo es) v (le_trans l (last_of-le lo es c)) h
