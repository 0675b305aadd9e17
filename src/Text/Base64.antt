-- ===== src/Text/Base64.antt =====
-- encoding/base64: `StdEncoding.EncodeToString` and `RawStdEncoding.DecodeString`.
use mx_sdk_erdgo.Prelude.{
  ℕ, ◌+◌, ◌-◌, ◌*◌, ◌/◌, ◌%◌, ◌<◌, ◌≡◌, ◌≢◌, refl, sym, ◌∙◌, false, ◌&&◌, ◌||◌, Option, none, some,
  List, [], ◌∷◌, ◌++◌, map, arith, All, ltb, leb, ◌==◌, nat_eq, if◌then◌else◌,
}
use mx_sdk_erdgo.Chain.{Bytes}
use mx_sdk_erdgo.Text.{replace_all, trim_right, trim_right-part, HasNoSeparator}
use mx_sdk_erdgo.Text.Hex.{AreBytes}

-- The standard alphabet: A to Z, a to z, 0 to 9, + and /.
abbrev pub std_char : ℕ → ℕ
std_char v =
    if ltb v 26
    then 65 + v
    else if ltb v 52
    then 71 + v
    else if ltb v 62
    then v - 4
    else if v == 62
    then 43
    else 47

abbrev pub std_value : ℕ → Option ℕ
std_value c =
    if leb 65 c && leb c 90
    then some (c - 65)
    else if leb 97 c && leb c 122
    then some (c - 71)
    else if leb 48 c && leb c 57
    then some (c + 4)
    else if c == 43
    then some 62
    else if c == 47
    then some 63
    else none

-- Three bytes are four numbers of six bits; one or two bytes at the end are two or three.
abbrev pub sextets : Bytes → List ℕ
sextets [] = []
sextets (a ∷ []) = (a / 4) ∷ (a % 4 * 16) ∷ []
sextets (a ∷ b ∷ []) = (a / 4) ∷ (a % 4 * 16 + b / 16) ∷ (b % 16 * 4) ∷ []
sextets (a ∷ b ∷ c ∷ rest) =
    (a / 4) ∷ (a % 4 * 16 + b / 16) ∷ (b % 16 * 4 + c / 64) ∷ (c % 64) ∷ sextets rest

-- The padding to a multiple of four characters.
abbrev pub padding : Bytes → Bytes
padding [] = []
padding (a ∷ []) = 61 ∷ 61 ∷ []
padding (a ∷ b ∷ []) = 61 ∷ []
padding (a ∷ b ∷ c ∷ rest) = padding rest

unfoldable pub std_encode : Bytes → Bytes
std_encode bs = map std_char (sextets bs) ++ padding bs

abbrev pub values_of : Bytes → Option (List ℕ)
values_of [] = some []
values_of (c ∷ cs) = add (std_value c) (values_of cs)
  where
    add : Option ℕ → Option (List ℕ) → Option (List ℕ)
    add none o = none
    add (some v) none = none
    add (some v) (some vs) = some (v ∷ vs)

abbrev pub map_some : (Bytes → Bytes) → Option Bytes → Option Bytes
map_some f none = none
map_some f (some bs) = some (f bs)

-- The bits that are left of a last byte are dropped; a single character is an error.
abbrev pub from_sextets : List ℕ → Option Bytes
from_sextets [] = some []
from_sextets (v ∷ []) = none
from_sextets (v ∷ w ∷ []) = some ((v * 4 + w / 16) ∷ [])
from_sextets (v ∷ w ∷ x ∷ []) = some ((v * 4 + w / 16) ∷ (w % 16 * 16 + x / 4) ∷ [])
from_sextets (v ∷ w ∷ x ∷ y ∷ rest) =
    map_some (λ bs. (v * 4 + w / 16) ∷ (w % 16 * 16 + x / 4) ∷ (x % 4 * 64 + y) ∷ bs)
      (from_sextets rest)

-- The decoder passes over line breaks.
abbrev pub without_breaks : Bytes → Bytes
without_breaks [] = []
without_breaks (c ∷ cs) =
    if (c == 10) || (c == 13) then without_breaks cs else c ∷ without_breaks cs

abbrev pub decode_values : Option (List ℕ) → Option Bytes
decode_values none = none
decode_values (some vs) = from_sextets vs

unfoldable pub raw_decode : Bytes → Option Bytes
raw_decode cs = decode_values (values_of (without_breaks cs))

-- `encodeHandler` and `decodeHandler` of authentication/native/tokenHandler.go: the alphabet for URLs,
-- without padding.
unfoldable pub encode_handler : Bytes → Bytes
unfolding std_encode
encode_handler source = trim_right 61 (replace_all 47 95 (replace_all 43 45 (std_encode source)))

unfoldable pub decode_handler : Bytes → Option Bytes
unfolding raw_decode
decode_handler source = raw_decode (trim_right 61 (replace_all 95 47 (replace_all 45 43 source)))

abbrev AreSextets : List ℕ → Type 0
AreSextets = All (λ v. v < 64)

sextets-AreSextets : (bs : Bytes) → AreBytes bs → AreSextets (sextets bs)
sextets-AreSextets [] all = tt
sextets-AreSextets (a ∷ []) (la, all) = (omega arith, (omega arith, tt))
sextets-AreSextets (a ∷ b ∷ []) (la, (lb, all)) = (omega arith, (omega arith, (omega arith, tt)))
sextets-AreSextets (a ∷ b ∷ c ∷ rest) (la, (lb, (lc, all))) =
    (omega arith, (omega arith, (omega arith, (omega arith, sextets-AreSextets rest all))))

from_sextets-sextets : (bs : Bytes) → AreBytes bs → from_sextets (sextets bs) ≡ some bs
from_sextets-sextets [] all = refl
from_sextets-sextets (a ∷ []) (la, all) =
    let first : a / 4 * 4 + a % 4 * 16 / 16 ≡ a = omega arith in rw first refl
from_sextets-sextets (a ∷ b ∷ []) (la, (lb, all)) =
    let first : a / 4 * 4 + (a % 4 * 16 + b / 16) / 16 ≡ a = omega arith in
    let second : (a % 4 * 16 + b / 16) % 16 * 16 + b % 16 * 4 / 4 ≡ b = omega arith in
    rw first (rw second refl)
from_sextets-sextets (a ∷ b ∷ c ∷ rest) (la, (lb, (lc, all))) =
    let first : a / 4 * 4 + (a % 4 * 16 + b / 16) / 16 ≡ a = omega arith in
    let second : (a % 4 * 16 + b / 16) % 16 * 16 + (b % 16 * 4 + c / 64) / 4 ≡ b = omega arith in
    let third : (b % 16 * 4 + c / 64) % 4 * 64 + c % 64 ≡ c = omega arith in
    rw first (rw second (rw third (rw (from_sextets-sextets rest all) refl)))

abbrev to_url : ℕ → ℕ
to_url c = let d = if c == 43 then 45 else c in if d == 47 then 95 else d

abbrev from_url : ℕ → ℕ
from_url c = let d = if c == 45 then 43 else c in if d == 95 then 47 else d

from_url-to_url : (v : ℕ) → v < 64 → from_url (to_url (std_char v)) ≡ std_char v
from_url-to_url v lt = ground arith

std_value-std_char : (v : ℕ) → v < 64 → std_value (std_char v) ≡ some v
std_value-std_char v lt = ground arith

to_url-differs : (v : ℕ) → v < 64 → (to_url (std_char v) ≢ 61) × (to_url (std_char v) ≢ 46)
to_url-differs v lt = (ground arith, ground arith)

std_char-differs : (v : ℕ) → v < 64 → (std_char v ≢ 61) × (std_char v ≢ 10) × (std_char v ≢ 13)
std_char-differs v lt = (ground arith, ground arith, ground arith)

-- The characters of an encoded text.
abbrev url_chars : List ℕ → Bytes
url_chars = map (λ v. to_url (std_char v))

replace-std_chars :
    (vs : List ℕ) (tail : Bytes)
    → replace_all 47 95 (replace_all 43 45 (map std_char vs ++ tail))
      ≡ url_chars vs ++ replace_all 47 95 (replace_all 43 45 tail)
replace-std_chars [] tail = refl
replace-std_chars (v ∷ vs) tail = rw (replace-std_chars vs tail) refl

replace-padding : (bs : Bytes) → replace_all 47 95 (replace_all 43 45 (padding bs)) ≡ padding bs
replace-padding [] = refl
replace-padding (a ∷ []) = refl
replace-padding (a ∷ b ∷ []) = refl
replace-padding (a ∷ b ∷ c ∷ rest) = replace-padding rest

url_chars-HasNoSeparator :
    (vs : List ℕ)
    → AreSextets vs
    → HasNoSeparator 61 (url_chars vs) × HasNoSeparator 46 (url_chars vs)
url_chars-HasNoSeparator [] all = (tt, tt)
url_chars-HasNoSeparator (v ∷ vs) (lt, all) =
    let (pad, dot) = to_url-differs v lt in
    let (pads, dots) = url_chars-HasNoSeparator vs all in ((pad, pads), (dot, dots))

trim_right-padding :
    (cs : Bytes) (bs : Bytes) → HasNoSeparator 61 cs → trim_right 61 (cs ++ padding bs) ≡ cs
trim_right-padding [] [] clean = refl
trim_right-padding [] (a ∷ []) clean = refl
trim_right-padding [] (a ∷ b ∷ []) clean = refl
trim_right-padding [] (a ∷ b ∷ c ∷ rest) clean = trim_right-padding [] rest tt
trim_right-padding (c ∷ []) bs (differs, clean) =
    let other : (c == 61) ≡ false = ground arith in rw (trim_right-padding [] bs tt) (rw other refl)
trim_right-padding (c ∷ d ∷ cs) bs (differs, clean) = rw (trim_right-padding (d ∷ cs) bs clean) refl

encode_handler-url_chars : (bs : Bytes) → AreBytes bs → encode_handler bs ≡ url_chars (sextets bs)
unfolding encode_handler
encode_handler-url_chars bs all = rw (replace-std_chars (sextets bs) (padding bs)) (
    rw (replace-padding bs) (
      trim_right-padding (url_chars (sextets bs)) bs
        (url_chars-HasNoSeparator (sextets bs) (sextets-AreSextets bs all)).0))

-- An encoded text has no dots.
pub encode_handler-HasNoSeparator :
    (bs : Bytes) → AreBytes bs → HasNoSeparator 46 (encode_handler bs)
encode_handler-HasNoSeparator bs all =
    rw (encode_handler-url_chars bs all)
      (url_chars-HasNoSeparator (sextets bs) (sextets-AreSextets bs all)).1

replace_back-url_chars :
    (vs : List ℕ)
    → AreSextets vs
    → replace_all 95 47 (replace_all 45 43 (url_chars vs)) ≡ map std_char vs
replace_back-url_chars [] all = refl
replace_back-url_chars (v ∷ vs) (lt, all) =
    rw (from_url-to_url v lt) (rw (replace_back-url_chars vs all) refl)

values_of-std_chars :
    (vs : List ℕ)
    → AreSextets vs
    → values_of (without_breaks (trim_right 61 (map std_char vs))) ≡ some vs
values_of-std_chars vs all =
    rw (trim_right-part 61 (map std_char vs) (no_padding vs all)) (values vs all)
  where
    no_padding : (vs : List ℕ) → AreSextets vs → HasNoSeparator 61 (map std_char vs)
    no_padding [] all = tt
    no_padding (v ∷ vs) (lt, all) = ((std_char-differs v lt).0, no_padding vs all)

    values : (vs : List ℕ) → AreSextets vs → values_of (without_breaks (map std_char vs)) ≡ some vs
    values [] all = refl
    values (v ∷ vs) (lt, all) =
        let (pad, line, feed) = std_char-differs v lt in
        let kept : (std_char v == 10) || (std_char v == 13) ≡ false = ground arith in
        rw kept (rw (std_value-std_char v lt) (rw (values vs all) refl))

-- What is encoded is decoded again.
pub decode_handler-encode_handler :
    (bs : Bytes) → AreBytes bs → decode_handler (encode_handler bs) ≡ some bs
unfolding decode_handler
decode_handler-encode_handler bs all =
    let vs = sextets bs in
    let are = sextets-AreSextets bs all in
    rw (encode_handler-url_chars bs all) (
      rw (replace_back-url_chars vs are)
        (rw (values_of-std_chars vs are) (from_sextets-sextets bs all)))

pub encode_handler-nil : (bs : Bytes) → AreBytes bs → encode_handler bs ≡ [] → bs ≡ []
encode_handler-nil [] all e = refl
encode_handler-nil (a ∷ bs) all e =
    absurd (filled a bs (sym (encode_handler-url_chars (a ∷ bs) all) ∙ e))
  where
    filled : (a : ℕ) (bs : Bytes) → url_chars (sextets (a ∷ bs)) ≢ []
    filled a [] = λ e. ground arith
    filled a (b ∷ []) = λ e. ground arith
    filled a (b ∷ c ∷ rest) = λ e. ground arith

to_url-bound : (v : ℕ) → v < 64 → to_url (std_char v) < 256
to_url-bound v lt = ground arith

pub encode_handler-AreBytes : (bs : Bytes) → AreBytes bs → AreBytes (encode_handler bs)
encode_handler-AreBytes bs all =
    rw (encode_handler-url_chars bs all) (chars (sextets bs) (sextets-AreSextets bs all))
  where
    chars : (vs : List ℕ) → AreSextets vs → AreBytes (url_chars vs)
    chars [] are = tt
    chars (v ∷ vs) (lt, are) = (to_url-bound v lt, chars vs are)
