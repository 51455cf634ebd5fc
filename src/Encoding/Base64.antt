-- ===== src/Encoding/Base64.antt =====
-- `base64.StdEncoding`: the alphabet, the padding, and the line breaks that decoding passes over.
use hyprbot.Prelude.{
  ℕ, ◌+◌, ◌-◌, ◌*◌, ◌/◌, ◌%◌, ◌<◌, ◌≡◌, refl, ◌∙◌, ap, false, ◌&&◌, ◌||◌, Option, none, some, List,
  [], ◌∷◌, Text, text, ltb, leb, eqb, if◌then◌else◌, arith, All, is_empty,
}

-- The character of a value below 64.
unfoldable pub encode_sextet : ℕ → ℕ
encode_sextet v =
    if ltb v 26
    then v + b'A'
    else if ltb v 52
    then v - 26 + b'a'
    else if ltb v 62
    then v - 52 + b'0'
    else if eqb v 62
    then b'+'
    else b'/'

unfoldable pub decode_sextet : ℕ → Option ℕ
decode_sextet c =
    if leb b'A' c && leb c b'Z'
    then some (c - b'A')
    else if leb b'a' c && leb c b'z'
    then some (c - b'a' + 26)
    else if leb b'0' c && leb c b'9'
    then some (c - b'0' + 52)
    else if eqb c b'+'
    then some 62
    else if eqb c b'/'
    then some 63
    else none

-- `EncodeToString`
unfoldable pub encode : List ℕ → Text
unfolding encode_sextet
encode [] = []
encode (a ∷ []) = encode_sextet (a / 4) ∷ encode_sextet (a % 4 * 16) ∷ b'=' ∷ b'=' ∷ []
encode (a ∷ b ∷ []) =
    encode_sextet (a / 4)
    ∷ encode_sextet (a % 4 * 16 + b / 16)
    ∷ encode_sextet (b % 16 * 4)
    ∷ b'='
    ∷ []
encode (a ∷ b ∷ c ∷ s) =
    encode_sextet (a / 4)
    ∷ encode_sextet (a % 4 * 16 + b / 16)
    ∷ encode_sextet (b % 16 * 4 + c / 64)
    ∷ encode_sextet (c % 64)
    ∷ encode s

-- One, two or three bytes from two, three or four values; `none` where a character had no value.
one_byte : Option ℕ → Option ℕ → Option (List ℕ)
one_byte (some p) (some q) = some ((p * 4 + q / 16) ∷ [])
one_byte _ _ = none

two_bytes : Option ℕ → Option ℕ → Option ℕ → Option (List ℕ)
two_bytes (some p) (some q) (some r) = some ((p * 4 + q / 16) ∷ (q % 16 * 16 + r / 4) ∷ [])
two_bytes _ _ _ = none

three_bytes : Option ℕ → Option ℕ → Option ℕ → Option ℕ → Option (List ℕ) → Option (List ℕ)
three_bytes (some p) (some q) (some r) (some t) (some rest) =
    some ((p * 4 + q / 16) ∷ (q % 16 * 16 + r / 4) ∷ (r % 4 * 64 + t) ∷ rest)
three_bytes _ _ _ _ _ = none

decode_quads : Text → Option (List ℕ)
decode_quads [] = some []
decode_quads (a ∷ b ∷ c ∷ d ∷ s) =
    let rest = decode_quads s in
    if eqb d b'='
    then if is_empty s
      then if eqb c b'='
        then one_byte (decode_sextet a) (decode_sextet b)
        else two_bytes (decode_sextet a) (decode_sextet b) (decode_sextet c)
      else none
    else three_bytes (decode_sextet a) (decode_sextet b) (decode_sextet c) (decode_sextet d) rest
decode_quads _ = none

drop_newlines : Text → Text
drop_newlines [] = []
drop_newlines (c ∷ s) =
    let rest = drop_newlines s in if eqb c 10 || eqb c 13 then rest else c ∷ rest

-- `DecodeString`, with `none` for its errors.
unfoldable pub decode : Text → Option (List ℕ)
unfolding decode_quads drop_newlines decode_sextet one_byte two_bytes three_bytes
decode s = decode_quads (drop_newlines s)

abbrev pub IsByte : ℕ → Type 0
IsByte c = c < 256

decode_sextet-encode_sextet : (v : ℕ) → v < 64 → decode_sextet (encode_sextet v) ≡ some v
unfolding decode_sextet encode_sextet
decode_sextet-encode_sextet v h = ground arith

-- A character of the alphabet is no padding and no line break.
encode_sextet_range :
    (v : ℕ)
    → (eqb (encode_sextet v) b'=' ≡ false)
      × (eqb (encode_sextet v) 10 ≡ false)
      × (eqb (encode_sextet v) 13 ≡ false)
unfolding encode_sextet
encode_sextet_range v = (ground arith, ground arith, ground arith)

drop_newlines-cons :
    (v : ℕ) (s t : Text)
    → drop_newlines s ≡ t
    → drop_newlines (encode_sextet v ∷ s) ≡ encode_sextet v ∷ t
unfolding drop_newlines
drop_newlines-cons v s t h = ground (arith, encode_sextet_range v)

drop_newlines-pad : drop_newlines (b'=' ∷ b'=' ∷ []) ≡ b'=' ∷ b'=' ∷ []
unfolding drop_newlines
drop_newlines-pad = refl

drop_newlines-pad_one : drop_newlines (b'=' ∷ []) ≡ b'=' ∷ []
unfolding drop_newlines
drop_newlines-pad_one = refl

drop_newlines-encode : (s : List ℕ) → drop_newlines (encode s) ≡ encode s
unfolding encode
drop_newlines-encode [] = unfold drop_newlines in refl
drop_newlines-encode (a ∷ []) =
    drop_newlines-cons (a / 4) _ _ (drop_newlines-cons (a % 4 * 16) _ _ drop_newlines-pad)
drop_newlines-encode (a ∷ b ∷ []) = drop_newlines-cons (a / 4) _ _ (
    drop_newlines-cons (a % 4 * 16 + b / 16) _ _
      (drop_newlines-cons (b % 16 * 4) _ _ drop_newlines-pad_one))
drop_newlines-encode (a ∷ b ∷ c ∷ s) = drop_newlines-cons (a / 4) _ _ (
    drop_newlines-cons (a % 4 * 16 + b / 16) _ _ (
      drop_newlines-cons (b % 16 * 4 + c / 64) _ _
        (drop_newlines-cons (c % 64) _ _ (drop_newlines-encode s))))

one_byte-encode :
    (a : ℕ)
    → IsByte a
    → one_byte (decode_sextet (encode_sextet (a / 4))) (decode_sextet (encode_sextet (a % 4 * 16)))
      ≡ some (a ∷ [])
unfolding one_byte
one_byte-encode a h = rw (decode_sextet-encode_sextet (a / 4) (omega arith)) (
    rw (decode_sextet-encode_sextet (a % 4 * 16) (omega arith))
      (ap (λ c. some (c ∷ [])) (omega arith)))

two_bytes-encode :
    (a b : ℕ)
    → IsByte a
    → IsByte b
    → two_bytes
        (decode_sextet (encode_sextet (a / 4)))
        (decode_sextet (encode_sextet (a % 4 * 16 + b / 16)))
        (decode_sextet (encode_sextet (b % 16 * 4)))
      ≡ some (a ∷ b ∷ [])
unfolding two_bytes
two_bytes-encode a b h k = rw (decode_sextet-encode_sextet (a / 4) (omega arith)) (
    rw (decode_sextet-encode_sextet (a % 4 * 16 + b / 16) (omega arith))
      (rw (decode_sextet-encode_sextet (b % 16 * 4) (omega arith)) (ground arith)))

three_bytes-encode :
    (a b c : ℕ) (rest : List ℕ)
    → IsByte a
    → IsByte b
    → IsByte c
    → three_bytes
        (decode_sextet (encode_sextet (a / 4)))
        (decode_sextet (encode_sextet (a % 4 * 16 + b / 16)))
        (decode_sextet (encode_sextet (b % 16 * 4 + c / 64)))
        (decode_sextet (encode_sextet (c % 64)))
        (some rest)
      ≡ some (a ∷ b ∷ c ∷ rest)
unfolding three_bytes
three_bytes-encode a b c rest h k l = rw (decode_sextet-encode_sextet (a / 4) (omega arith)) (
    rw (decode_sextet-encode_sextet (a % 4 * 16 + b / 16) (omega arith)) (
      rw (decode_sextet-encode_sextet (b % 16 * 4 + c / 64) (omega arith))
        (rw (decode_sextet-encode_sextet (c % 64) (omega arith)) (ground arith))))

decode_quads-encode : (s : List ℕ) → All IsByte s → decode_quads (encode s) ≡ some s
unfolding decode_quads encode
decode_quads-encode [] h = refl
decode_quads-encode (a ∷ []) h = one_byte-encode a h.0
decode_quads-encode (a ∷ b ∷ []) h =
    rw ((encode_sextet_range (b % 16 * 4)).0) (two_bytes-encode a b h.0 h.1.0)
decode_quads-encode (a ∷ b ∷ c ∷ s) h =
    rw ((encode_sextet_range (c % 64)).0)
      (rw (decode_quads-encode s h.1.1.1) (three_bytes-encode a b c s h.0 h.1.0 h.1.1.0))

-- Decoding an encoding gives the bytes back.
pub decode-encode : (s : List ℕ) → All IsByte s → decode (encode s) ≡ some s
unfolding decode
decode-encode s h = ap decode_quads (drop_newlines-encode s) ∙ decode_quads-encode s h

decode_test : decode (text "aGk=\n") ≡ some (text "hi")
unfolding decode text
decode_test = refl

encode_test : encode (text "hyprbot") ≡ text "aHlwcmJvdA=="
unfolding encode text
encode_test = refl
