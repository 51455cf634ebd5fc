-- ===== src/Examples/Libraries.antt =====
-- Simple stand-ins for encoding/json and for AES-GCM of Go's library, which meet what is assumed of
-- them.
use hyprbot.Encoding.Json.{Codec}
use hyprbot.Encoding.Base64.{IsByte}
use hyprbot.Crypto.Aead.{Aead, IsLawful}
use hyprbot.Crypto.Manager.{Envelope}
use hyprbot.Queue.Stream.{AskJob}
use hyprbot.Telegram.Service.{WizardState}
use hyprbot.Prelude.{
  zero, suc, arith, refl, negsuc, ◌+◌, ◌++◌, ◌∷◌, none, Option, pos, All, List, ◌≡◌, ◌∙◌, length,
  [], ℤ, Text, ℕ, some, ap,
}

-- A field and the fields behind it: a text with its length in front, an integer with its sign.
abbrev split_at : ℕ → Text → Option (Text × Text)
split_at zero s = some ([], s)
split_at (suc n) [] = none
split_at (suc n) (c ∷ s) = elim (split_at n s) [ none ↦ none | some (t, r) ↦ some (c ∷ t, r) ]

split_at-append : (t r : Text) → split_at (length t) (t ++ r) ≡ some (t, r)
split_at-append [] r = refl
split_at-append (c ∷ t) r = rw (split_at-append t r) refl

abbrev put_text : Text → Text → Text
put_text t r = length t ∷ t ++ r

unfoldable pub put_int : ℤ → Text → Text
put_int (pos n) r = 0 ∷ n ∷ r
put_int (negsuc n) r = 1 ∷ n ∷ r

abbrev take_text : {A : Type 0} → (Text → Text → Option A) → Text → Option A
take_text k [] = none
take_text k (n ∷ s) = elim (split_at n s) [ none ↦ none | some (t, r) ↦ k t r ]

unfoldable pub take_int : {A : Type 0} → (ℤ → Text → Option A) → Text → Option A
take_int k [] = none
take_int k (b ∷ []) = none
take_int k (zero ∷ n ∷ r) = k (pos n) r
take_int k (suc b ∷ n ∷ r) = k (negsuc n) r

pub take_text-put :
    {A : Type 0} (k : Text → Text → Option A) (t r : Text) (o : Option A)
    → k t r ≡ o
    → take_text k (put_text t r) ≡ o
take_text-put k t r o h =
    ap (λ x. elim x [ none ↦ none | some (t', r') ↦ k t' r' ]) (split_at-append t r) ∙ h

pub take_int-put :
    {A : Type 0} (k : ℤ → Text → Option A) (x : ℤ) (r : Text) (o : Option A)
    → k x r ≡ o
    → take_int k (put_int x r) ≡ o
unfolding take_int put_int
take_int-put k (pos n) r o h = h
take_int-put k (negsuc n) r o h = h

unfoldable pub put_time : Option ℕ → Text → Text
put_time none r = 0 ∷ r
put_time (some t) r = 1 ∷ t ∷ r

unfoldable pub take_time : {A : Type 0} → (Option ℕ → Text → Option A) → Text → Option A
take_time k [] = none
take_time k (zero ∷ r) = k none r
take_time k (suc b ∷ []) = none
take_time k (suc b ∷ t ∷ r) = k (some t) r

pub take_time-put :
    {A : Type 0} (k : Option ℕ → Text → Option A) (x : Option ℕ) (r : Text) (o : Option A)
    → k x r ≡ o
    → take_time k (put_time x r) ≡ o
unfolding take_time put_time
take_time-put k none r o h = h
take_time-put k (some t) r o h = h

abbrev attempts_in : {A : Type 0} → (ℕ → A) → Text → Option A
attempts_in f [] = none
attempts_in f (n ∷ r) = some (f n)

-- Behind an opening brace.
abbrev braced : {A : Type 0} → (Text → Option A) → Text → Option A
braced k [] = none
braced k (c ∷ r) = k r

abbrev pub envelope_codec : Codec Envelope
envelope_codec = record {
  marshal = λ e. 123 ∷ put_text e.key_id (put_text e.nonce (put_text e.ciphertext []));
  unmarshal = braced (
      take_text (λ k.
        take_text
          (λ n. take_text (λ c r. some (record { key_id = k; nonce = n; ciphertext = c })))));
  unmarshal-marshal = λ e.
      take_text-put _ e.key_id _ _
        (take_text-put _ e.nonce _ _ (take_text-put _ e.ciphertext _ _ (refl)));
}

abbrev pub job_codec : Codec AskJob
job_codec = record {
  marshal = λ j. put_text j.job_id (
      put_int j.chat_id (
        put_text j.chat_type (
          put_int j.user_id (
            put_int j.message_id (
              put_text j.prompt
                (put_text j.preset_name (put_time j.enqueued_at (j.attempts ∷ []))))))));
  unmarshal = take_text (λ i. take_int (λ c. take_text (λ k. take_int (λ u. take_int (λ m.
      take_text (λ p. take_text (λ n. take_time (λ t. attempts_in (λ a. record {
        job_id = i;
        chat_id = c;
        chat_type = k;
        user_id = u;
        message_id = m;
        prompt = p;
        preset_name = n;
        enqueued_at = t;
        attempts = a;
      })))))))));
  unmarshal-marshal = λ j. take_text-put _ j.job_id _ _ (
      take_int-put _ j.chat_id _ _ (
        take_text-put _ j.chat_type _ _ (
          take_int-put _ j.user_id _ _ (
            take_int-put _ j.message_id _ _ (
              take_text-put _ j.prompt _ _
                (take_text-put _ j.preset_name _ _ (take_time-put _ j.enqueued_at _ _ (refl))))))));
}

abbrev pub wizard_codec : Codec WizardState
wizard_codec = record {
  marshal = λ z. put_int z.target_chat_id (
      put_text z.step (
        put_text z.kind (
          put_text z.name
            (put_text z.base_url (put_text z.endpoint (put_text z.headers_json []))))));
  unmarshal = take_int (λ c. take_text (λ s. take_text (λ k. take_text (λ n. take_text (λ b.
      take_text (λ e. take_text (λ h r. some (record {
        target_chat_id = c;
        step = s;
        kind = k;
        name = n;
        base_url = b;
        endpoint = e;
        headers_json = h;
      }))))))));
  unmarshal-marshal = λ z. take_int-put _ z.target_chat_id _ _ (
      take_text-put _ z.step _ _ (
        take_text-put _ z.kind _ _ (
          take_text-put _ z.name _ _ (
            take_text-put _ z.base_url _ _
              (take_text-put _ z.endpoint _ _ (take_text-put _ z.headers_json _ _ (refl)))))));
}

-- A code point is written as that many ones and a zero.
abbrev ones : ℕ → List ℕ → List ℕ
ones zero r = 0 ∷ r
ones (suc n) r = 1 ∷ ones n r

abbrev bits : Text → List ℕ
bits [] = []
bits (c ∷ t) = ones c (bits t)

abbrev unbits : ℕ → List ℕ → Text
unbits n [] = []
unbits n (zero ∷ r) = n ∷ unbits 0 r
unbits n (suc b ∷ r) = unbits (suc n) r

unbits-ones : (n c : ℕ) (r : List ℕ) → unbits n (ones c r) ≡ (c + n) ∷ unbits 0 r
unbits-ones n zero r = ground arith
unbits-ones n (suc c) r = unbits-ones (suc n) c r ∙ ground arith

unbits-bits : (t : Text) → unbits 0 (bits t) ≡ t
unbits-bits [] = refl
unbits-bits (c ∷ t) = unbits-ones 0 c (bits t) ∙ ground (arith, unbits-bits t)

ones-IsByte : (c : ℕ) (r : List ℕ) → All IsByte r → All IsByte (ones c r)
ones-IsByte zero r h = (omega arith, h)
ones-IsByte (suc c) r h = (omega arith, ones-IsByte c r h)

bits-IsByte : (t : Text) → All IsByte (bits t)
bits-IsByte [] = tt
bits-IsByte (c ∷ t) = ones-IsByte c (bits t) (bits-IsByte t)

abbrev pub plain_aead : Aead
plain_aead = record { seal = λ key nonce p. bits p; «open» = λ key nonce c. some (unbits 0 c) }

pub plain_aead-IsLawful : IsLawful plain_aead
plain_aead-IsLawful = record {
  open-seal = λ key nonce p. ap some (unbits-bits p);
  seal-IsByte = λ key nonce p. bits-IsByte p;
}
