-- ===== src/Wallet.antt =====
-- skepticoin/wallet.py: the addresses of the wallet; its transactions are in Wallet/Spend.
pub mod Address
pub mod Keys
pub mod Restore
pub mod Own
pub mod Spend
use skepticoin.Humans.{computer}
use skepticoin.Prelude.{Bytes, Bool, ℕ, List}
use skepticoin.Prelude.Result.{Result, ok, err, address_parse, raise_if}
use skepticoin.Prelude.{
  [], drop, false, leb, length, not, take, true, ◌&&◌, ◌+◌, ◌-◌, ◌==◌, ◌||◌, ◌∷◌,
}
use skepticoin.Prelude.Eq.{list_eq, nat_eq, ◌≟◌}
use skepticoin.Prelude.Result.{◌>>=◌, ◌>>◌}

-- The codes of `SKE`, and of `PTI`.
abbrev pub address_start : List ℕ
address_start = b'S' ∷ b'K' ∷ b'E' ∷ []

abbrev pub address_end : List ℕ
address_end = b'P' ∷ b'T' ∷ b'I' ∷ []

-- `c in '0123456789abcdef'`
unfoldable pub is_lower_hex : ℕ → Bool
is_lower_hex c = (leb b'0' c && leb c b'9') || (leb b'a' c && leb c b'f')

unfoldable pub all_lower_hex : List ℕ → Bool
all_lower_hex [] = true
all_lower_hex (c ∷ cs) = is_lower_hex c && all_lower_hex cs

-- `s[3:-3]`, which is empty for a text of fewer than 6 characters.
unfoldable pub middle : List ℕ → List ℕ
middle s = take (length s - 6) (drop 3 s)

-- `s[-3:]`, which is all of a text of fewer than 3 characters.
unfoldable pub last_three : List ℕ → List ℕ
last_three s = drop (length s - 3) s

unfoldable pub parse_address : List ℕ → Result Bytes
parse_address s = do
  raise_if (not (take 3 s ≟ address_start)) address_parse
  raise_if (not (last_three s ≟ address_end)) address_parse
  raise_if (not (length s == 3 + 128 + 3)) address_parse
  raise_if (not (all_lower_hex (middle s))) address_parse
  computer (middle s)

-- An error of `computer` is not caught.
unfoldable pub is_valid_address : List ℕ → Result Bool
is_valid_address s = elim (parse_address s) [
  | ok b ↦ ok true
  | err address_parse ↦ ok false
  | err e ↦ err e
]
