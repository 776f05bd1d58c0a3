-- ===== src/Humans.antt =====
-- skepticoin/humans.py: bytes as text of hexadecimal digits, and back.
use Prim.Native.String.{String}
use skepticoin.Prelude.{
  All, Bytes, List, [], ap, arith, if◌then◌else◌, leb, ltb, refl, ℕ, ◌%◌, ◌&&◌, ◌*◌, ◌+◌, ◌-◌, ◌/◌,
  ◌<◌, ◌∷◌, ◌≡◌,
}
use Prim.Native.Char.{code}
use skepticoin.Prelude.Result.{Result, err, ok, value_error, ◌>>=◌}

-- The character char_codes of a text.
abbrev pub char_codes : String → List ℕ
char_codes String.[] = []
char_codes (String.◌∷◌ first rest) = code first ∷ char_codes rest

unfoldable pub hex_digit : ℕ → ℕ
hex_digit d = if ltb d 10 then b'0' + d else b'a' + (d - 10)

-- `hexlify`, as the char_codes of the characters.
unfoldable pub human : Bytes → List ℕ
human [] = []
human (b ∷ bs) = hex_digit (b / 16) ∷ hex_digit (b % 16) ∷ human bs

-- The value of a digit, in either case.
unfoldable pub digit_value : ℕ → Result ℕ
digit_value c =
    if leb b'0' c && leb c b'9'
    then ok (c - b'0')
    else if leb b'a' c && leb c b'f'
    then ok (c - b'a' + 10)
    else if leb b'A' c && leb c b'F'
    then ok (c - b'A' + 10)
    else err value_error

-- `unhexlify`: an odd length, or a character that is no digit, is a binascii.Error.
unfoldable pub computer : List ℕ → Result Bytes
computer [] = ok []
computer (c ∷ []) = err value_error
computer (c ∷ d ∷ rest) = do
  h ← digit_value c
  l ← digit_value d
  bs ← computer rest
  ok ((h * 16 + l) ∷ bs)

digit_value-hex_digit : (d : ℕ) → d < 16 → digit_value (hex_digit d) ≡ ok d
unfolding digit_value hex_digit
digit_value-hex_digit d h = ground arith

-- The text that `human` makes of bytes below 256 is read back by `computer` as those bytes.
pub computer-human : (bs : Bytes) → All (λ b. b < 256) bs → computer (human bs) ≡ ok bs
unfolding computer human
computer-human [] h = refl
computer-human (b ∷ bs) (h, hs) =
    rw
      (
        digit_value-hex_digit (b / 16) (omega arith),
        digit_value-hex_digit (b % 16) (omega arith),
        computer-human bs hs,
      )
      (ap (λ (t : ℕ). ok (t ∷ bs)) (omega arith))
