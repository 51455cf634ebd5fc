-- ===== src/Queue/Delivery/Once.antt =====
-- The messages that internal/queue/stream.go hands out to processes whose calls come in any order.
use hyprbot.Queue.Delivery.{
  Handed, idle, elsewhere, starts, enqueues, acks, reads, Ascends, handed_ids, InOrder, Passed,
  Ascends-decoded, Ascends-weaken,
}
use hyprbot.Queue.Delivery.Order.{
  le_self, InOrder-SameStream, InOrder-create, InOrder-xadd, InOrder-xack, InOrder-xdel, Got,
  Got-read, Got-InOrder,
}
use hyprbot.Queue.Backlog.{Rising}
use hyprbot.Queue.Stream.{AskJob, Message, enqueue, ack, read, ensure_group}
use hyprbot.Redis.{Redis, IsLawful}
use hyprbot.Redis.Commands.{Entry, Group, last_of}
use hyprbot.System.{Sys, World}
use hyprbot.System.Keeps.{Keeps, Keeps-call, Keeps-bind}
use hyprbot.System.Ensures.{Ensures, Ensures-call, Ensures-bind, Ensures-pure, Ensures-raise}
use hyprbot.Encoding.Json.{Codec}
use hyprbot.Prelude.{◌≡◌, ℕ, List, ◌++◌, Option, some, none, Text, Result, ok, err, arith}

module _ {R : Redis} (L : IsLawful R) (json : Codec AskJob) where
  abbrev Ordered : ℕ → Sys R → Type 0
  Ordered f s = InOrder f (R.view s.redis)

  Keeps-ensure_group : (f : ℕ) → Keeps (Ordered f) ensure_group
  unfolding ensure_group
  Keeps-ensure_group f =
      Keeps-call _ _ (λ s h. rw (L.view-xgroup_create s.redis) (InOrder-create f _ h))

  Keeps-enqueue :
      (f : ℕ) (new_id : Text) (job : AskJob) → Keeps (Ordered f) (enqueue json new_id job)
  unfolding enqueue
  Keeps-enqueue f new_id job =
      Keeps-call _ _ (λ s h. rw (L.view-xadd s.redis _) (InOrder-xadd f _ _ h))

  Keeps-ack : (f : ℕ) (i : ℕ) → Keeps (Ordered f) (ack i)
  unfolding ack
  Keeps-ack f i =
      Keeps-bind _ _ (Keeps-call _ _ (λ s h. rw (L.view-xack s.redis i) (InOrder-xack f _ i h)))
        (λ _. Keeps-call _ _ (λ s h. rw (L.view-xdel s.redis i) (InOrder-xdel f _ i h)))

  -- What a read hands out lies between the floor before it and a floor behind it.
  record Advances (f : ℕ) (r : Result (List Message)) (s : Sys R) : Type 0 where
    floor : ℕ
    ordered : Ordered floor s
    ascends : (is : List ℕ) → Ascends floor is → Ascends f (handed_ids r ++ is)

  -- The answer to the command.
  abbrev Answered : ℕ → Result (Option (List Entry)) → Sys R → Type 0
  Answered f (ok o) s = Got f o (R.view s.redis)
  Answered f (err e) s = Ordered f s

  Ensures-read : (f : ℕ) (n : ℕ) → Ensures (Ordered f) (read json n) (Advances f)
  unfolding read
  Ensures-read f n =
      Ensures-bind (Answered f) _ _
        (Ensures-call _ _ (λ s h. got s h) (λ s h. (h, Got-InOrder f _ _ (got s h))))
        (elim [
          | none ↦ Ensures-raise _ (λ s h. record { floor = f; ordered = h; ascends = λ is k. k })
          | some es ↦ Ensures-pure _ (λ s (lo, l, c, o). record {
            floor = last_of lo es;
            ordered = o;
            ascends = λ is k. Ascends-weaken f lo _ l (Ascends-decoded json lo es is c k);
          })
        ])
        (λ e s h. record { floor = f; ordered = h; ascends = λ is k. k })
    where
      got :
          (s : Sys R)
          → Ordered f s
          → Got f (R.xreadgroup s.redis n).1 (R.view (R.xreadgroup s.redis n).0)
      got s h = rw (L.view-xreadgroup s.redis n, L.answer-xreadgroup s.redis n) (Got-read f _ n h)

  Handed-Ascends :
      (f : ℕ) (w w' : World R) (is : List ℕ) → Handed json w is w' → Ordered f w.sys → Ascends f is
  Handed-Ascends f w w' is (idle _) h = tt
  Handed-Ascends f w w' is (elsewhere _ w₁ _ _ same k) h =
      Handed-Ascends f w₁ w' is k (InOrder-SameStream f _ _ same h)
  Handed-Ascends f w w' is (starts _ _ _ k) h =
      Handed-Ascends f _ w' is k ((Keeps-ensure_group f).at w h)
  Handed-Ascends f w w' is (enqueues new_id job _ _ _ k) h =
      Handed-Ascends f _ w' is k ((Keeps-enqueue f new_id job).at w h)
  Handed-Ascends f w w' is (acks i _ _ _ k) h = Handed-Ascends f _ w' is k ((Keeps-ack f i).at w h)
  Handed-Ascends f w w' is (reads n _ _ rest k) h =
      let a = (Ensures-read f n).at w h in
      a.ascends rest (Handed-Ascends a.floor _ w' rest k a.ordered)

  -- If the identifiers in the stream rise, then in any run of any processes that create the
  -- group, enqueue, read and acknowledge in any order, whichever calls fail and whatever else
  -- changes in between, the messages that reads hand out have rising identifiers: none is handed
  -- out twice, to whichever process.
  pub handed_once :
      (w w' : World R) (is : List ℕ)
      → Rising 0 (R.view w.sys.redis).entries (R.view w.sys.redis).last_id
      → Handed json w is w'
      → Ascends 0 is
  handed_once w w' is h k =
      Handed-Ascends 0 w w' is k (record { low = 0; rising = h; passed = by_group _ })
    where
      by_group : (g : Option Group) → Passed 0 (R.view w.sys.redis) g
      by_group none = omega arith
      by_group (some g) = omega arith

  -- Where no group exists yet and the identifiers in the stream rise, no run of any processes,
  -- which create the group, enqueue, read and acknowledge in any order, hands out a message that
  -- was in the stream before: what is handed out lies above the last identifier of that time.
  pub early_jobs_lost :
      (w w' : World R) (is : List ℕ)
      → (R.view w.sys.redis).group ≡ none
      → Rising 0 (R.view w.sys.redis).entries (R.view w.sys.redis).last_id
      → Handed json w is w'
      → Ascends (R.view w.sys.redis).last_id is
  early_jobs_lost w w' is none_yet h k =
      Handed-Ascends (R.view w.sys.redis).last_id w w' is k (record {
        low = 0;
        rising = h;
        passed = rw none_yet (le_self (R.view w.sys.redis).last_id);
      })
