-- ===== src/Cheating.antt =====
-- skepticoin/cheating.py: the checkpoints.
mod First
mod Second
use Prim.Native.Nat.{max}
use Prim.Native.String.{String}
use First.{first_known_hashes}
use Second.{second_known_hashes}
use skepticoin.Prelude.{List, [], refl, ℕ, ◌++◌, ◌∷◌, ◌≡◌}
use skepticoin.Prelude.Eq.{list_eq, nat_eq}
use skepticoin.Prelude.Map.{Map}

unfoldable pub known_hashes : Map ℕ String
unfolding first_known_hashes second_known_hashes
known_hashes = first_known_hashes ++ second_known_hashes

unfoldable pub max_key : List (ℕ × String) → ℕ
max_key [] = 0
max_key ((k, s) ∷ m) = max k (max_key m)

-- `max(KNOWN_HASHES.keys())`
unfoldable pub max_known_hash_height : ℕ
max_known_hash_height = max_key known_hashes

pub max_known_hash_height_value : max_known_hash_height ≡ 163000
unfolding max_known_hash_height known_hashes max_key
max_known_hash_height_value = refl
