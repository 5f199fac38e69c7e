-- ===== src/Common/Bytes.antt =====
-- Byte strings, encoding/binary's big-endian numbers, and a file as the bytes that it holds.
use Prim.Native.Nat.{ℕ, ◌+◌, ◌-◌, ◌*◌, ◌/◌, ◌%◌, ◌^◌, ◌<◌}
use mathlib.Core.Path.{◌≡◌, refl}
use mathlib.Core.Logic.{◌↔◌}
use mathlib.Core.Bool.{Bool, true, false, ◌&&◌, ◌||◌}
use mathlib.Core.Option.{Option, none, some}
use mathlib.Core.List.{List, [], ◌∷◌, ◌++◌, foldl}
use native.Mathlib.Omega.{arith}
use theo_extension.Common.Tests.{◌==◌, ltb, leb, le→leb, if◌then◌else◌, ==_iff}
use theo_extension.Common.Lists.{
  length, take, drop, replicate, take_prefix, drop_prefix, length-append,
}
use theo_extension.Common.Maps.{Eq}

-- A Go `string` or `[]byte`: its bytes.
abbrev pub Bytes : Type 0
Bytes = List ℕ

unfoldable pub bytes_beq : Bytes → Bytes → Bool
bytes_beq [] [] = true
bytes_beq [] (y ∷ ys) = false
bytes_beq (x ∷ xs) [] = false
bytes_beq (x ∷ xs) (y ∷ ys) = x == y && bytes_beq xs ys

pub bytes_beq_iff : (a b : Bytes) → (bytes_beq a b ≡ true) ↔ (a ≡ b)
unfolding bytes_beq
bytes_beq_iff [] [] = ground arith
bytes_beq_iff [] (y ∷ ys) = ground arith
bytes_beq_iff (x ∷ xs) [] = ground arith
bytes_beq_iff (x ∷ xs) (y ∷ ys) = ground (arith, bytes_beq_iff xs ys)

instance abbrev pub bytes_eq : Eq Bytes
bytes_eq = record { beq = bytes_beq; beq_iff = bytes_beq_iff }

instance abbrev pub nat_eq : Eq ℕ
nat_eq = record { beq = ◌==◌; beq_iff = ==_iff }

-- Go's order of strings.
unfoldable pub bytes_lt : Bytes → Bytes → Bool
bytes_lt [] [] = false
bytes_lt [] (y ∷ ys) = true
bytes_lt (x ∷ xs) [] = false
bytes_lt (x ∷ xs) (y ∷ ys) = if x == y then bytes_lt xs ys else ltb x y

-- strings.HasPrefix
unfoldable pub has_prefix : Bytes → Bytes → Bool
has_prefix key [] = true
has_prefix [] (p ∷ ps) = false
has_prefix (k ∷ key) (p ∷ ps) = k == p && has_prefix key ps

-- binary.BigEndian.PutUint64 and PutUint32
unfoldable pub put_uint64 : ℕ → Bytes
put_uint64 v =
    (v / 2 ^ 56 % 256)
    ∷ (v / 2 ^ 48 % 256)
    ∷ (v / 2 ^ 40 % 256)
    ∷ (v / 2 ^ 32 % 256)
    ∷ (v / 2 ^ 24 % 256)
    ∷ (v / 2 ^ 16 % 256)
    ∷ (v / 2 ^ 8 % 256)
    ∷ (v % 256)
    ∷ []

unfoldable pub put_uint32 : ℕ → Bytes
put_uint32 v = (v / 2 ^ 24 % 256) ∷ (v / 2 ^ 16 % 256) ∷ (v / 2 ^ 8 % 256) ∷ (v % 256) ∷ []

-- binary.BigEndian.Uint64 and Uint32, on a slice of that many bytes.
unfoldable pub uint_be : Bytes → ℕ
uint_be = foldl (λ acc b. acc * 256 + b) 0

pub uint_be-put_uint64 : (v : ℕ) → v < 2 ^ 64 → uint_be (put_uint64 v) ≡ v
unfolding uint_be put_uint64
uint_be-put_uint64 v h = omega arith

pub uint_be-put_uint32 : (v : ℕ) → v < 2 ^ 32 → uint_be (put_uint32 v) ≡ v
unfolding uint_be put_uint32
uint_be-put_uint32 v h = omega arith

pub length-put_uint64 : (v : ℕ) → length (put_uint64 v) ≡ 8
unfolding put_uint64
length-put_uint64 v = refl

pub length-put_uint32 : (v : ℕ) → length (put_uint32 v) ≡ 4
unfolding put_uint32
length-put_uint32 v = refl

-- io.ReadFull: the bytes read and the bytes left, or none if there are too few.
unfoldable pub read_full : ℕ → Bytes → Option (Bytes × Bytes)
read_full n r = if leb n (length r) then some (take n r, drop n r) else none

pub read_full-append :
    (n : ℕ) (xs ys : Bytes) → n ≡ length xs → read_full n (xs ++ ys) ≡ some (xs, ys)
unfolding read_full
read_full-append n xs ys e = rw (
  length-append xs ys,
  le→leb n (length xs + length ys) (omega arith),
  take_prefix n xs ys e,
  drop_prefix n xs ys e,
)

-- File.ReadAt of n bytes: none where the file ends before, unless no bytes are asked for.
unfoldable pub read_at : Bytes → ℕ → ℕ → Option Bytes
read_at f pos n = if leb (pos + n) (length f) || n == 0 then some (take n (drop pos f)) else none

-- File.WriteAt: a gap before the position fills with zeros.
unfoldable pub write_at : Bytes → ℕ → Bytes → Bytes
write_at f pos buf =
    take pos (f ++ replicate (pos - length f) 0) ++ (buf ++ drop (pos + length buf) f)
