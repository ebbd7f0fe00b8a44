-- ===== src/Relay/Wire/Reading.antt =====
-- core/emunel_core/relay/: reading behind a prefix of a known length.
use emunel.Prelude.{
  take-append, drop-append, Str, ℕ, zero, suc, ◌+◌, ◌-◌, ◌*◌, ◌<◌, ◌≡◌, refl, ap, List, [], ◌∷◌,
  ◌++◌, arith, length, get_elem?, take, drop,
}
use native.Mathlib.Nat.{add_assoc, add-zero}
use mathlib.Core.Option.{Option, none, some}
use emunel.Relay.Wire.{
  Result, dotted, Ip, v4, v6, ok, byte_at, slice, coloned, hex2, separated, from_big, port_bytes,
}

get_elem?-behind :
    {A : Type 0} (xs ys : List A) (n k : ℕ)
    → length xs ≡ n
    → get_elem? (xs ++ ys) (n + k) ≡ get_elem? ys k
get_elem?-behind [] ys zero k h = ap (get_elem? ys) (omega arith)
get_elem?-behind [] ys (suc n) k h = absurd (omega arith)
get_elem?-behind (x ∷ xs) ys zero k h = absurd (omega arith)
get_elem?-behind (x ∷ xs) ys (suc n) k h = ground (arith, get_elem?-behind xs ys n k)

pub drop-behind :
    {A : Type 0} (xs ys : List A) (n k : ℕ) → length xs ≡ n → drop (n + k) (xs ++ ys) ≡ drop k ys
drop-behind [] ys zero k h = ap (λ (m : ℕ). drop m ys) (omega arith)
drop-behind [] ys (suc n) k h = absurd (omega arith)
drop-behind (x ∷ xs) ys zero k h = absurd (omega arith)
drop-behind (x ∷ xs) ys (suc n) k h =
    let e : suc n + k ≡ suc (n + k) = omega arith in rw e (drop-behind xs ys n k (omega arith))

pub byte_at-behind :
    (xs ys : List ℕ) (n k : ℕ) → length xs ≡ n → byte_at (xs ++ ys) (n + k) ≡ byte_at ys k
unfolding byte_at
byte_at-behind xs ys n k h = ground (arith, get_elem?-behind xs ys n k)

pub slice-behind :
    (xs ys : List ℕ) (n a b : ℕ) → length xs ≡ n → slice (n + a) (n + b) (xs ++ ys) ≡ slice a b ys
unfolding slice
slice-behind xs ys n a b h =
    rw (drop-behind xs ys n a h) (ap (λ (m : ℕ). take m (drop a ys)) (omega arith))

-- A slice of length `m` behind a prefix.
pub slice_at-behind :
    (xs ys : List ℕ) (n k m : ℕ)
    → length xs ≡ n
    → slice (n + k) (n + k + m) (xs ++ ys) ≡ slice k (k + m) ys
slice_at-behind xs ys n k m h = rw (add_assoc n k m) (slice-behind xs ys n k (k + m) h)

-- A port survives its two bytes.
pub from_big-port : (port : ℕ) → port < 65536 → from_big 0 (port_bytes port) ≡ port
unfolding from_big port_bytes
from_big-port port h = omega arith

slice_all : (ys zs : List ℕ) (m : ℕ) → length ys ≡ m → slice 0 m (ys ++ zs) ≡ ys
unfolding slice
slice_all ys zs m e = let all : m - 0 ≡ length ys = omega arith in rw all (take-append ys zs)

drop_all : (ys zs : List ℕ) (m : ℕ) → length ys ≡ m → drop m (ys ++ zs) ≡ zs
drop_all ys zs m e = rw (← e) (drop-append ys zs)

-- What stands at the start of what is behind the prefix.
pub slice_first :
    (xs ys zs : List ℕ) (n m : ℕ)
    → length xs ≡ n
    → length ys ≡ m
    → slice n (n + m) (xs ++ (ys ++ zs)) ≡ ys
slice_first xs ys zs n m h e =
    ground (arith, slice_at-behind xs (ys ++ zs) n 0 m h, slice_all ys zs m e, add-zero n)

pub drop_first :
    (xs ys zs : List ℕ) (n m : ℕ)
    → length xs ≡ n
    → length ys ≡ m
    → drop (n + m) (xs ++ (ys ++ zs)) ≡ zs
drop_first xs ys zs n m h e = ground (arith, drop-behind xs (ys ++ zs) n m h, drop_all ys zs m e)

-- Sixteen bytes are eight pairs: the text of such an address is never cut short.
pub coloned_total :
    (pairs : ℕ) (bs : List ℕ) → length bs ≡ 2 * pairs → (a : Str) × (coloned pairs bs ≡ ok a)
unfolding coloned
coloned_total zero bs h = ([], refl)
coloned_total (suc n) [] h = absurd (omega arith)
coloned_total (suc n) (a ∷ []) h = absurd (omega arith)
coloned_total (suc n) (a ∷ b ∷ bs) h =
    let (rest, e) = coloned_total n bs (omega arith) in (hex2 a ++ hex2 b ++ separated n rest, rw e)

-- `ip_address` packs an address into 4 or 16 bytes.
abbrev pub IsPacked : Option Ip → Type 0
IsPacked none = Unit
IsPacked (some (v4 packed)) = length packed ≡ 4
IsPacked (some (v6 packed)) = length packed ≡ 16

-- The text by which an address comes back: the host itself, or the packed bytes in their notation.
abbrev pub shown : Str → Option Ip → Result Str
shown address none = ok address
shown address (some (v4 packed)) = ok (dotted packed)
shown address (some (v6 packed)) = coloned 8 packed
