-- ===== src/Common/Bytes.antt =====
-- common/messages.cpp: numbers in network byte order. `numToBinary (htobe… x)` writes the bytes of
-- `x` from the highest on, and `be…toh (binaryToNum p)` reads them back; memory is a list of bytes,
-- and a read past its end is undefined.
use sik_screenworms.Base.{
  ℕ, zero, suc, ◌+◌, ◌*◌, ◌/◌, ◌%◌, ◌^◌, ◌≤◌, ◌<◌, ◌≡◌, refl, arith, List, [], ◌∷◌, ◌++◌, length,
  All, take, length-append, take-length_append, leb, if◌then◌else◌, Outcome, ok, fail,
  undefined_behaviour,
}

abbrev pub IsByte : ℕ → Type 0
IsByte b = b < 256

-- `numToBinary (htobe w x)`, in `w` bytes.
unfoldable pub write_be : ℕ → ℕ → List ℕ
write_be zero x = []
write_be (suc w) x = (x / 256 ^ w % 256) ∷ write_be w x

read_be_loop : ℕ → ℕ → List ℕ → Outcome ℕ
read_be_loop zero acc p = ok acc
read_be_loop (suc w) acc [] = fail undefined_behaviour
read_be_loop (suc w) acc (b ∷ p) = read_be_loop w (acc * 256 + b) p

-- `betoh (binaryToNum p)`, of `w` bytes.
unfoldable pub read_be : ℕ → List ℕ → Outcome ℕ
unfolding read_be_loop
read_be w p = read_be_loop w 0 p

-- `*p`
unfoldable pub byte_at : List ℕ → Outcome ℕ
byte_at [] = fail undefined_behaviour
byte_at (b ∷ p) = ok b

-- `memcpy (dest, p, n)`
unfoldable pub read_bytes : ℕ → List ℕ → Outcome (List ℕ)
read_bytes n p = if leb n (length p) then ok (take n p) else fail undefined_behaviour

pub length-write_be : (w x : ℕ) → length (write_be w x) ≡ w
unfolding write_be
length-write_be zero x = refl
length-write_be (suc w) x = omega (arith, length-write_be w x)

write_be-IsByte : (w x : ℕ) → All IsByte (write_be w x)
unfolding write_be
write_be-IsByte zero x = tt
write_be-IsByte (suc w) x = (omega arith, write_be-IsByte w x)

pub read_be-write_be4 : (x : ℕ) (p : List ℕ) → x < 2 ^ 32 → read_be 4 (write_be 4 x ++ p) ≡ ok x
unfolding read_be write_be
read_be-write_be4 x p h = ground arith

pub read_be-write_be8 : (x : ℕ) (p : List ℕ) → x < 2 ^ 64 → read_be 8 (write_be 8 x ++ p) ≡ ok x
unfolding read_be write_be
read_be-write_be8 x p h = ground arith

-- The bytes that were read are the ones that the number is written with.
pub write_be-read_be4 :
    (p : List ℕ) (x : ℕ)
    → All IsByte p
    → read_be 4 p ≡ ok x
    → (write_be 4 x ≡ take 4 p) × (x < 2 ^ 32) × (4 ≤ length p)
unfolding read_be write_be
write_be-read_be4 [] x b h = cc
write_be-read_be4 (b0 ∷ []) x b h = cc
write_be-read_be4 (b0 ∷ b1 ∷ []) x b h = cc
write_be-read_be4 (b0 ∷ b1 ∷ b2 ∷ []) x b h = cc
write_be-read_be4 (b0 ∷ b1 ∷ b2 ∷ b3 ∷ p) x b h = ground arith

pub write_be-read_be8 :
    (p : List ℕ) (x : ℕ)
    → All IsByte p
    → read_be 8 p ≡ ok x
    → (write_be 8 x ≡ take 8 p) × (x < 2 ^ 64) × (8 ≤ length p)
unfolding read_be write_be
write_be-read_be8 [] x b h = cc
write_be-read_be8 (b0 ∷ []) x b h = cc
write_be-read_be8 (b0 ∷ b1 ∷ []) x b h = cc
write_be-read_be8 (b0 ∷ b1 ∷ b2 ∷ []) x b h = cc
write_be-read_be8 (b0 ∷ b1 ∷ b2 ∷ b3 ∷ []) x b h = cc
write_be-read_be8 (b0 ∷ b1 ∷ b2 ∷ b3 ∷ b4 ∷ []) x b h = cc
write_be-read_be8 (b0 ∷ b1 ∷ b2 ∷ b3 ∷ b4 ∷ b5 ∷ []) x b h = cc
write_be-read_be8 (b0 ∷ b1 ∷ b2 ∷ b3 ∷ b4 ∷ b5 ∷ b6 ∷ []) x b h = cc
write_be-read_be8 (b0 ∷ b1 ∷ b2 ∷ b3 ∷ b4 ∷ b5 ∷ b6 ∷ b7 ∷ p) x b h = ground arith

pub read_bytes-inv :
    (n : ℕ) (p xs : List ℕ) → read_bytes n p ≡ ok xs → (xs ≡ take n p) × (n ≤ length p)
unfolding read_bytes
read_bytes-inv n p xs h = ground arith

pub byte_at-inv : (p : List ℕ) (b : ℕ) → byte_at p ≡ ok b → take 1 p ≡ b ∷ []
unfolding byte_at
byte_at-inv [] b h = cc
byte_at-inv (x ∷ p) b h = ground arith

pub read_bytes-append : (xs ys : List ℕ) → read_bytes (length xs) (xs ++ ys) ≡ ok xs
unfolding read_bytes
read_bytes-append xs ys = ground (arith, length-append xs ys, take-length_append xs ys)
