-- ===== src/Queue/Backlog.antt =====
-- The stream of internal/queue/stream.go as a queue: what waits in it for the consumer group, and what
-- reading, adding and acknowledging do to that.
use hyprbot.Redis.Commands
use hyprbot.Redis.Commands.{View, Entry, Group, above, ids, last_of, without, drop_entry}
use hyprbot.Prelude.{
  sym, ℕ, suc, ◌≤◌, ◌<◌, ◌≡◌, refl, List, [], ◌∷◌, ◌++◌, some, Text, arith, take, eqb_iff, sym, ap,
  ◌∙◌,
}

-- Identifiers that rise from above `lo` to at most `hi`.
abbrev pub Rising : ℕ → List Entry → ℕ → Type 0
Rising lo [] hi = lo ≤ hi
Rising lo (e ∷ es) hi = (lo < e.id) × Rising e.id es hi

-- The group was given the entries up to `last`, of which `pending` wait for their XACK; the entries `es`
-- wait to be read.
pub record Backlog (v : View) (pending : List ℕ) (last : ℕ) (es : List Entry) : Type 0 where
  pub group : v.group ≡ some (record { last_delivered = last; pending = pending })
  pub waiting : above last v.entries ≡ es
  pub rising : Rising last es v.last_id

-- The server behind XACK and XDEL.
abbrev pub acked : ℕ → View → View
acked i v = Commands.xdel (Commands.xack v i) i

pub above_lower : (i lo : ℕ) (es : List Entry) (hi : ℕ) → i ≤ lo → Rising lo es hi → above i es ≡ es
unfolding above
above_lower i lo [] hi h k = refl
above_lower i lo (e ∷ es) hi h k = ground (arith, above_lower i e.id es hi)

Rising-above : (lo : ℕ) (es : List Entry) (hi : ℕ) → Rising lo es hi → above lo es ≡ es
unfolding above
Rising-above lo [] hi h = refl
Rising-above lo (e ∷ es) hi h = rw (above_lower lo e.id es hi (omega arith) h.1) (ground arith)

above-above : (i j : ℕ) (es : List Entry) → i ≤ j → above j (above i es) ≡ above j es
unfolding above
above-above i j [] h = refl
above-above i j (e ∷ es) h = ground (arith, above-above i j es)

above-drop_entry : (i : ℕ) (es : List Entry) → above i (drop_entry i es) ≡ above i es
unfolding above drop_entry
above-drop_entry i [] = refl
above-drop_entry i (e ∷ es) = ground (arith, above-drop_entry i es, eqb_iff i e.id)

above-append : (i : ℕ) (es fs : List Entry) → above i (es ++ fs) ≡ above i es ++ above i fs
unfolding above
above-append i [] fs = refl
above-append i (e ∷ es) fs = ground (arith, above-append i es fs)

Rising-le : (lo : ℕ) (es : List Entry) (hi : ℕ) → Rising lo es hi → lo ≤ hi
Rising-le lo [] hi h = h
Rising-le lo (e ∷ es) hi h = ground (arith, Rising-le e.id es hi h.1)

pub Rising-append_last :
    (lo : ℕ) (es : List Entry) (hi : ℕ) (payload : Text)
    → Rising lo es hi
    → Rising lo (es ++ record { id = suc hi; payload = payload } ∷ []) (suc hi)
Rising-append_last lo [] hi payload h = (omega arith, omega arith)
Rising-append_last lo (e ∷ es) hi payload h = (h.0, Rising-append_last e.id es hi payload h.1)

above-cons : (e : Entry) (es : List Entry) (hi : ℕ) → Rising e.id es hi → above e.id (e ∷ es) ≡ es
unfolding above
above-cons e es hi h = ground (arith, Rising-above e.id es hi h)

pub lt_le : (m n : ℕ) → m < n → m ≤ n
lt_le m n h = omega arith

le_suc : (m n : ℕ) → m ≤ n → m < suc n
le_suc m n h = omega arith

above-one : (d : ℕ) (e : Entry) → d < e.id → above d (e ∷ []) ≡ e ∷ []
unfolding above
above-one d e h = ground arith

above-new :
    (d : ℕ) (es : List Entry) (e : Entry) → d < e.id → above d (es ++ e ∷ []) ≡ above d es ++ e ∷ []
above-new d es e h = above-append d es (e ∷ []) ∙ ap (λ fs. above d es ++ fs) (above-one d e h)

-- Where nothing waits, a read gives nothing.
pub read-idle :
    (v : View) (d : ℕ)
    → Backlog v [] d []
    → Backlog (Commands.xreadgroup v 1).0 [] d [] × ((Commands.xreadgroup v 1).1 ≡ some [])
unfolding ids last_of take
read-idle v d b =
    rw (b.group, b.waiting) (record { group = refl; waiting = b.waiting; rising = b.rising }, refl)

-- A read of one entry gives the first that waits.
pub read-first :
    (v : View) (d : ℕ) (e : Entry) (es : List Entry)
    → Backlog v [] d (e ∷ es)
    → Backlog (Commands.xreadgroup v 1).0 (e.id ∷ []) e.id es
      × ((Commands.xreadgroup v 1).1 ≡ some (e ∷ []))
unfolding ids last_of take
read-first v d e es b =
    rw (b.group, b.waiting) (record { group = refl; waiting = rest; rising = b.rising.1 }, refl)
  where
    rest : above e.id v.entries ≡ es
    rest =
        sym (above-above d e.id v.entries (lt_le d e.id b.rising.0))
        ∙ ap (above e.id) b.waiting
        ∙ above-cons e es (v.last_id) b.rising.1

-- What is added waits behind the others.
pub xadd-Backlog :
    (v : View) (pending : List ℕ) (d : ℕ) (es : List Entry) (payload : Text)
    → Backlog v pending d es
    → Backlog
        (Commands.xadd v payload).0
        pending
        d
        (es ++ record { id = suc v.last_id; payload = payload } ∷ [])
xadd-Backlog v pending d es payload b = record {
  group = b.group;
  waiting =
      above-new d v.entries _ (le_suc d v.last_id (Rising-le d es v.last_id b.rising))
      ∙ ap (λ fs. fs ++ record { id = suc v.last_id; payload = payload } ∷ []) b.waiting;
  rising = Rising-append_last d es v.last_id payload b.rising;
}

without_self : (i : ℕ) → without i (i ∷ []) ≡ []
unfolding without
without_self i = ground (arith, eqb_iff i i)

-- The entry that was read last is acknowledged, and nothing that waits is lost.
pub acked-Backlog :
    (v : View) (d : ℕ) (es : List Entry) → Backlog v (d ∷ []) d es → Backlog (acked d v) [] d es
acked-Backlog v d es b = record {
  group = rw b.group (ap (λ p. some (record { last_delivered = d; pending = p })) (without_self d));
  waiting = above-drop_entry d v.entries ∙ b.waiting;
  rising = b.rising;
}
