-- ===== src/Tests/Codec.antt =====
-- A self-delimiting encoding of the registry's map, for the tests: every key is a list of code
-- points, each behind a 1, and every list ends with a 0.
use Prim.Native.Char.{Char, char, code, IsLt, IsScalar}
use Prim.Native.Nat.{Ordering, compare}
use go_hass_agent.Prelude.{
  ℕ, zero, suc, String, Bool, true, false, Option, none, some, List, [], ◌∷◌, ◌++◌, ◌≡◌, refl, ap,
  ◌∙◌,
}
use go_hass_agent.Prelude.Dict.{Dict}
use go_hass_agent.Registry.Gob.{Codec, Metadata, Decoded, entries, eof, malformed}
use go_hass_agent.Registry.File.{IsSelfDelimiting}

abbrev BothLt : Ordering → Ordering → Type 0
BothLt Ordering.lt o = IsLt o
BothLt Ordering.eq _ = ⊥
BothLt Ordering.gt _ = ⊥

abbrev Scalar : Ordering → Ordering → Ordering → Type 0
Scalar Ordering.lt _ _ = Unit
Scalar Ordering.eq o p = BothLt o p
Scalar Ordering.gt o p = BothLt o p

is_both : (o p : Ordering) → Option (BothLt o p)
is_both Ordering.lt Ordering.lt = some tt
is_both Ordering.lt Ordering.eq = none
is_both Ordering.lt Ordering.gt = none
is_both Ordering.eq p = none
is_both Ordering.gt p = none

is_scalar : (o p q : Ordering) → Option (Scalar o p q)
is_scalar Ordering.lt p q = some tt
is_scalar Ordering.eq p q = is_both p q
is_scalar Ordering.gt p q = is_both p q

is_both-some : (o p : Ordering) (b : BothLt o p) → is_both o p ≡ some b
unfolding is_both
is_both-some Ordering.lt Ordering.lt b = refl
is_both-some Ordering.lt Ordering.eq b = absurd b
is_both-some Ordering.lt Ordering.gt b = absurd b
is_both-some Ordering.eq p b = absurd b
is_both-some Ordering.gt p b = absurd b

is_scalar-some : (o p q : Ordering) (b : Scalar o p q) → is_scalar o p q ≡ some b
unfolding is_scalar
is_scalar-some Ordering.lt p q b = refl
is_scalar-some Ordering.eq p q b = is_both-some p q b
is_scalar-some Ordering.gt p q b = is_both-some p q b

to_char : (n : ℕ) → Option (IsScalar n) → Option Char
to_char n none = none
to_char n (some h) = some (char n h)

char_of : ℕ → Option Char
char_of n = to_char n (is_scalar (compare n 55296) (compare 57343 n) (compare n 1114112))

char_of-code : (c : Char) → char_of (code c) ≡ some c
unfolding char_of to_char
char_of-code (char n h) = ap (to_char n) (is_scalar-some _ _ _ h)

encode_text : String → List ℕ → List ℕ
encode_text String.[] rest = 0 ∷ rest
encode_text (String.◌∷◌ c s) rest = 1 ∷ code c ∷ encode_text s rest

bit : Bool → ℕ
bit true = 1
bit false = 0

pub encode_map : Dict Metadata → List ℕ → List ℕ
unfolding encode_text bit
encode_map [] rest = 0 ∷ rest
encode_map ((k, v) ∷ m) rest =
    1 ∷ bit v.registered ∷ bit v.disabled ∷ encode_text k (encode_map m rest)

flag : ℕ → Bool
flag zero = false
flag (suc n) = true

push : Option Char → Option (String × Dict Metadata) → Option (String × Dict Metadata)
push none o = none
push (some c) none = none
push (some c) (some (s, m)) = some (String.◌∷◌ c s, m)

entry : ℕ → ℕ → Option (String × Dict Metadata) → Option (String × Dict Metadata)
unfolding flag
entry r d none = none
entry r d (some (k, m)) = some ("", (k, record { registered = flag r; disabled = flag d }) ∷ m)

-- In a key, or between two entries.
decode_from : Bool → List ℕ → Option (String × Dict Metadata)
unfolding push entry char_of
decode_from in_key [] = none
decode_from false (zero ∷ rest) = some ("", [])
decode_from false (suc n ∷ r ∷ d ∷ rest) = entry r d (decode_from true rest)
decode_from false (suc n ∷ r ∷ []) = none
decode_from false (suc n ∷ []) = none
decode_from true (zero ∷ rest) = decode_from false rest
decode_from true (suc n ∷ c ∷ rest) = push (char_of c) (decode_from true rest)
decode_from true (suc n ∷ []) = none

result : Option (String × Dict Metadata) → Decoded
result none = malformed
result (some (s, m)) = entries m

pub decode : List ℕ → Decoded
unfolding result decode_from
decode [] = eof
decode (n ∷ bytes) = result (decode_from false (n ∷ bytes))

abbrev pub toy_codec : Codec
toy_codec = record { encode = λ m. encode_map m []; decode = decode }

encode_text-append :
    (s : String) (xs ys : List ℕ) → encode_text s xs ++ ys ≡ encode_text s (xs ++ ys)
unfolding encode_text
encode_text-append String.[] xs ys = refl
encode_text-append (String.◌∷◌ c s) xs ys =
    ap (λ (t : List ℕ). 1 ∷ code c ∷ t) (encode_text-append s xs ys)

encode_map-append :
    (m : Dict Metadata) (xs ys : List ℕ) → encode_map m xs ++ ys ≡ encode_map m (xs ++ ys)
unfolding encode_map
encode_map-append [] xs ys = refl
encode_map-append ((k, v) ∷ m) xs ys =
    ap (λ (t : List ℕ). 1 ∷ bit v.registered ∷ bit v.disabled ∷ t)
      (encode_text-append k (encode_map m xs) ys ∙ ap (encode_text k) (encode_map-append m xs ys))

text_back :
    (s : String) (rest : List ℕ) (m : Dict Metadata)
    → decode_from false rest ≡ some ("", m)
    → decode_from true (encode_text s rest) ≡ some (s, m)
unfolding encode_text decode_from push
text_back String.[] rest m h = h
text_back (String.◌∷◌ c s) rest m h = rw (char_of-code c) (rw (text_back s rest m h) refl)

flag-bit : (b : Bool) → flag (bit b) ≡ b
unfolding flag bit
flag-bit true = refl
flag-bit false = refl

map_back :
    (m : Dict Metadata) (rest : List ℕ) → decode_from false (encode_map m rest) ≡ some ("", m)
unfolding encode_map decode_from entry
map_back [] rest = refl
map_back ((k, v) ∷ m) rest =
    rw (text_back k (encode_map m rest) m (map_back m rest))
      (rw (flag-bit v.registered) (rw (flag-bit v.disabled) refl))

decode_lem :
    (bytes : List ℕ) (m : Dict Metadata)
    → decode_from false bytes ≡ some ("", m)
    → decode bytes ≡ entries m
unfolding decode decode_from
decode_lem [] m h = cc
decode_lem (n ∷ bytes) m h = rw h refl

pub toy_codec-IsSelfDelimiting : IsSelfDelimiting toy_codec
toy_codec-IsSelfDelimiting m rest =
    ap decode (encode_map-append m [] rest) ∙ decode_lem (encode_map m rest) m (map_back m rest)
