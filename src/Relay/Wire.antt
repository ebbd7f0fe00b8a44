-- ===== src/Relay/Wire.antt =====
-- What the headers of core/emunel_core/relay/vless.py, trojan.py and shadowsocks.py share: reading
-- bytes as Python does, and the text of an address.
pub mod Reading
use emunel.Prelude.{
  ◌≡◌, refl, ◌⊎◌, inl, inr, ℕ, ◌+◌, ◌-◌, ◌*◌, ◌/◌, ◌%◌, Bool, Option, none, some, List, [], ◌∷◌,
  ◌++◌, Str, ltb, get_elem?, take, drop, if◌then◌else◌, map,
}

-- An exception of the parsers.
pub data Error : Type 0 where
  value_error index_error permission_error : Error

pub data Result {ℓ} (A : Type ℓ) : Type ℓ where
  ok : A → Result A
  err : Error → Result A

infixl 5 ◌>>=◌
abbrev pub ◌>>=◌ {ℓ κ} : {A : Type ℓ} {B : Type κ} → Result A → (A → Result B) → Result B
ok a >>= f = f a
err e >>= f = err e

pub Result-cases {ℓ} :
    {A : Type ℓ} (r : Result A) → ((a : A) × (r ≡ ok a)) ⊎ ((e : Error) × (r ≡ err e))
Result-cases (ok a) = inl (a, refl)
Result-cases (err e) = inr (e, refl)

-- chunk[pos]
abbrev found : Option ℕ → Result ℕ
found none = err index_error
found (some b) = ok b

unfoldable pub byte_at : List ℕ → ℕ → Result ℕ
byte_at chunk pos = found (get_elem? chunk pos)

-- chunk[a:b], which never fails
unfoldable pub slice : ℕ → ℕ → List ℕ → List ℕ
slice a b chunk = take (b - a) (drop a chunk)

-- int.from_bytes(bs, "big")
unfoldable pub from_big : ℕ → List ℕ → ℕ
from_big acc [] = acc
from_big acc (b ∷ bs) = from_big (acc * 256 + b) bs

-- port.to_bytes(2, "big") of a port below 65536
unfoldable pub port_bytes : ℕ → List ℕ
port_bytes port = (port / 256) ∷ (port % 256) ∷ []

digit : ℕ → ℕ
digit d = if ltb d 10 then b'0' + d else b'a' + (d - 10)

-- str(b) and f"{b:02x}" of a byte
unfoldable pub decimal : ℕ → Str
unfolding digit
decimal b =
    if ltb b 10
    then digit b ∷ []
    else if ltb b 100
    then digit (b / 10) ∷ digit (b % 10) ∷ []
    else digit (b / 100) ∷ digit (b / 10 % 10) ∷ digit (b % 10) ∷ []

unfoldable pub hex2 : ℕ → Str
unfolding digit
hex2 b = digit (b / 16) ∷ digit (b % 16) ∷ []

-- ".".join(str(b) for b in bs)
unfoldable pub dotted : List ℕ → Str
dotted [] = []
dotted (b ∷ []) = decimal b
dotted (b ∷ c ∷ bs) = decimal b ++ (b'.' ∷ dotted (c ∷ bs))

-- A colon between two pairs.
separated : ℕ → Str → Str
separated ℕ.zero rest = rest
separated (ℕ.suc pairs) rest = b':' ∷ rest

-- ":".join(f"{ab[i]:02x}{ab[i + 1]:02x}" for i in range(0, 16, 2)): `pairs` of the range are left
unfoldable pub coloned : ℕ → List ℕ → Result Str
unfolding separated
coloned ℕ.zero bs = ok []
coloned (ℕ.suc pairs) (a ∷ b ∷ bs) =
    coloned pairs bs >>= λ rest. ok (hex2 a ++ hex2 b ++ separated pairs rest)
coloned (ℕ.suc pairs) bs = err index_error

-- An address as `ipaddress.ip_address` reads it: the packed bytes.
pub data Ip : Type 0 where
  v4 : List ℕ → Ip
  v6 : List ℕ → Ip

-- What the codecs use of the libraries: `str.encode`, `bytes.decode("utf-8", errors="ignore")`, and
-- `ipaddress.ip_address`, which is `none` where it raises `ValueError`.
pub record Texts : Type 0 where
  pub encode : Str → List ℕ
  pub decode : List ℕ → Str
  pub ip_address : Str → Option Ip
