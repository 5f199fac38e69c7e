-- ===== src/Common/ByteOrder.antt =====
-- Go's order of strings is a strict linear order.
use theo_extension.Common.{◌≡◌, refl, true, false, [], ◌∷◌, arith, ==-refl}
use theo_extension.Common.Bytes.{Bytes, bytes_beq, bytes_lt}

pub bytes_lt_irrefl : (k : Bytes) → bytes_lt k k ≡ false
unfolding bytes_lt
bytes_lt_irrefl [] = refl
bytes_lt_irrefl (b ∷ k) = rw (==-refl b) (bytes_lt_irrefl k)

pub bytes_lt_trans :
    (a b c : Bytes) → bytes_lt a b ≡ true → bytes_lt b c ≡ true → bytes_lt a c ≡ true
unfolding bytes_lt
bytes_lt_trans [] [] c h k = cc
bytes_lt_trans [] (y ∷ ys) [] h k = cc
bytes_lt_trans [] (y ∷ ys) (z ∷ zs) h k = refl
bytes_lt_trans (x ∷ xs) [] c h k = cc
bytes_lt_trans (x ∷ xs) (y ∷ ys) [] h k = cc
bytes_lt_trans (x ∷ xs) (y ∷ ys) (z ∷ zs) h k = ground (arith, bytes_lt_trans xs ys zs)

pub bytes_lt-ne : (a b : Bytes) → bytes_lt a b ≡ true → bytes_beq a b ≡ false
unfolding bytes_lt bytes_beq
bytes_lt-ne [] [] h = cc
bytes_lt-ne [] (y ∷ ys) h = refl
bytes_lt-ne (x ∷ xs) [] h = cc
bytes_lt-ne (x ∷ xs) (y ∷ ys) h = ground (arith, bytes_lt-ne xs ys)

pub bytes_lt-ne_sym : (a b : Bytes) → bytes_lt a b ≡ true → bytes_beq b a ≡ false
unfolding bytes_lt bytes_beq
bytes_lt-ne_sym [] [] h = cc
bytes_lt-ne_sym [] (y ∷ ys) h = refl
bytes_lt-ne_sym (x ∷ xs) [] h = cc
bytes_lt-ne_sym (x ∷ xs) (y ∷ ys) h = ground (arith, bytes_lt-ne_sym xs ys)

pub bytes_lt_total :
    (a b : Bytes) → bytes_beq a b ≡ false → bytes_lt a b ≡ false → bytes_lt b a ≡ true
unfolding bytes_lt bytes_beq
bytes_lt_total [] [] h k = cc
bytes_lt_total [] (y ∷ ys) h k = cc
bytes_lt_total (x ∷ xs) [] h k = refl
bytes_lt_total (x ∷ xs) (y ∷ ys) h k = ground (arith, bytes_lt_total xs ys)
