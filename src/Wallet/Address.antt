-- ===== src/Wallet/Address.antt =====
-- The addresses that `parse_address` of skepticoin/wallet.py accepts.
use skepticoin.Wallet.{parse_address, middle, last_three, all_lower_hex, address_start, address_end}
use skepticoin.Humans.{human, hex_digit}
use skepticoin.Humans.{computer-human}
use skepticoin.Prelude.{
  All, Bytes, List, [], ap, arith, drop, length, refl, take, true, ℕ, ◌%◌, ◌*◌, ◌++◌, ◌/◌, ◌<◌, ◌∷◌,
  ◌≡◌,
}
use skepticoin.Prelude.Result.{ok}
use skepticoin.Wallet.{is_lower_hex}
use skepticoin.Prelude.{length-append, ◌-◌, ◌∙◌}
use skepticoin.Prelude.{suc}

-- The text of an address, around the digits of a key.
abbrev pub address_of : Bytes → List ℕ
address_of key = address_start ++ (human key ++ address_end)

length-human : (b : Bytes) → length (human b) ≡ 2 * length b
unfolding human
length-human [] = refl
length-human (x ∷ xs) = omega (arith, length-human xs)

lower_hex_digit : (d : ℕ) → d < 16 → is_lower_hex (hex_digit d) ≡ true
unfolding is_lower_hex hex_digit
lower_hex_digit d h = ground arith

human-lower_hex : (b : Bytes) → All (λ x. x < 256) b → all_lower_hex (human b) ≡ true
unfolding all_lower_hex human
human-lower_hex [] h = refl
human-lower_hex (x ∷ xs) (h, hs) =
    rw
      (
        lower_hex_digit (x / 16) (omega arith),
        lower_hex_digit (x % 16) (omega arith),
        human-lower_hex xs hs,
      )
      refl

take-length-append : {A : Type 0} (xs ys : List A) → take (length xs) (xs ++ ys) ≡ xs
take-length-append [] ys = refl
take-length-append {A = A} (x ∷ xs) ys = ap (λ (t : List A). x ∷ t) (take-length-append xs ys)

drop-length-append : {A : Type 0} (xs ys : List A) → drop (length xs) (xs ++ ys) ≡ ys
drop-length-append [] ys = refl
drop-length-append (x ∷ xs) ys = drop-length-append xs ys

length-address_of : (key : Bytes) → length key ≡ 64 → length (address_of key) ≡ 134
length-address_of key size =
    omega (arith, size, length-human key, length-append (human key) address_end)

middle-address_of : (key : Bytes) → length key ≡ 64 → middle (address_of key) ≡ human key
unfolding middle
middle-address_of key size =
    ap (λ k. take k (human key ++ address_end)) {x = length (address_of key) - 6}
      {y = length (human key)} (omega (arith, size, length-human key, length-address_of key size))
    ∙ take-length-append (human key) address_end

last_three-address_of : (key : Bytes) → length key ≡ 64 → last_three (address_of key) ≡ address_end
unfolding last_three
last_three-address_of key size =
    ap (λ k. drop k (address_of key)) {x = length (address_of key) - 3}
      {y = suc (suc (suc (length (human key))))}
      (omega (arith, size, length-human key, length-address_of key size))
    ∙ drop-length-append (human key) address_end

-- The address of a key of 64 bytes, its digits between `SKE` and `PTI`, is parsed as that key.
pub parse_address-address_of :
    (key : Bytes)
    → length key ≡ 64
    → All (λ b. b < 256) key
    → parse_address (address_of key) ≡ ok key
unfolding parse_address
parse_address-address_of key size bytes =
    rw
      (
        last_three-address_of key size,
        length-address_of key size,
        middle-address_of key size,
        human-lower_hex key bytes,
      )
      (computer-human key bytes)
