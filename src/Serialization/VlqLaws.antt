-- ===== src/Serialization/VlqLaws.antt =====
-- Variable-length quantities, written and read back (skepticoin/serialization.py).
use skepticoin.Prelude.Result.{◌then_write◌}
use native.Mathlib.Nat.{mod-mod_of_dvd, dvd-mul_right, pow-le-pow_right}
use native.Mathlib.Numerals.{towards_suc}
use native.Mathlib.Nat.{pow-suc}
use skepticoin.Prelude.{
  Bytes, [], arith, refl, suc, zero, ℕ, ◌%◌, ◌*◌, ◌+◌, ◌/◌, ◌<◌, ◌^◌, ◌∷◌, ◌≡◌, ◌≤◌,
}
use skepticoin.Serialization.Vlq.{bit_length, bit_length_from}
use native.Mathlib.Nat.{div-add-mod}
use skepticoin.Prelude.{◌++◌}
use skepticoin.Prelude.Result.{ok}
use skepticoin.Serialization.Pack.{pack}
use skepticoin.Serialization.Vlq.{read_groups, write_groups}
use native.Mathlib.Nat.{mod-lt}
use skepticoin.Prelude.{ap, if◌then◌else◌, ◌==◌, ◌∙◌}
use skepticoin.Serialization.PackLaws.{pow_pos}
use mathlib.Core.Path.{subst}
use skepticoin.Prelude.{length, ltb}
use skepticoin.Serialization.RoundTrip.{RoundTrips}
use skepticoin.Serialization.Vlq.{stream_deserialize_vlq, stream_serialize_vlq}
use skepticoin.Serialization.Pack.{to_be}

bit_length_from_bound : (fuel n : ℕ) → n ≤ fuel → n < 2 ^ bit_length_from fuel n
unfolding bit_length_from
bit_length_from_bound zero n h = omega arith
bit_length_from_bound (suc fuel) n h =
    ground (arith, bit_length_from_bound fuel (n / 2), pow-suc 2 (bit_length_from fuel (n / 2)))

pub bit_length_bound : (n : ℕ) → n < 2 ^ bit_length n
unfolding bit_length
bit_length_bound n = bit_length_from_bound n n (omega arith)

seven_more : (k : ℕ) → 7 * suc k ≡ 7 * k + 7
seven_more k = omega arith

pow_seven : (k : ℕ) → 2 ^ (7 * k) ≡ 128 ^ k
pow_seven zero = refl
pow_seven (suc k) = rw (seven_more k) (simp towards_suc (omega (arith, pow_seven k)))

-- The groups that are written fit the number.
pub groups_suffice : (i : ℕ) → i < 128 ^ (bit_length i / 7 + 1)
groups_suffice i = omega (
  arith,
  bit_length_bound i,
  pow_seven (bit_length i / 7 + 1),
  pow-le-pow_right {n = 2} (omega arith) {i = bit_length i} {j = 7 * (bit_length i / 7 + 1)}
      (omega arith),
)

-- The bytes of a number of at most `k + 1` groups.
abbrev pub encoding : ℕ → ℕ → Bytes
encoding zero w = w ∷ []
encoding (suc k) w = (w / 128 ^ suc k + 128) ∷ encoding k (w % 128 ^ suc k)

-- A number at a group of weight `p`, and what is below it.
group_split : (w p : ℕ) → 0 < p → w < p * 128 → (w / p < 128) × (w ≡ w / p * p + w % p)
group_split w p h lt = grind (arith, div-add-mod w p)

pow_128 : (k : ℕ) → 128 ^ suc k ≡ 128 ^ k * 128
pow_128 k = pow-suc 128 k

read_group :
    (g acc : ℕ) (f : Bytes)
    → g < 128
    → read_groups acc ((g + 128) ∷ f) ≡ read_groups ((acc + g) * 128) f
unfolding read_groups
read_group g acc f h = ground arith

regroup : (acc g p q w r : ℕ) → q ≡ p * 128 → w ≡ g * q + r → (acc + g) * 128 * p + r ≡ acc * q + w
regroup acc g p q w r hq e = omega (arith, ap (λ (t : ℕ). acc * t) hq, ap (λ (t : ℕ). g * t) hq)

-- Reading the groups of a number on top of what has been read.
read_groups-encoding :
    (k w acc : ℕ) (rest : Bytes)
    → w < 128 ^ suc k
    → read_groups acc (encoding k w ++ rest) ≡ ok (acc * 128 ^ k + w, rest)
read_groups-encoding zero w acc rest h = unfold read_groups in ground arith
read_groups-encoding (suc k) w acc rest h =
    let p : ℕ = 128 ^ suc k in
    let split = group_split w p (pow_pos 128 (suc k) (omega arith)) (rw (pow_128 (suc k)) at h) in
    read_group (w / p) acc (encoding k (w % p) ++ rest) split.0
    ∙ read_groups-encoding k (w % p) ((acc + w / p) * 128) rest
        (mod-lt w (pow_pos 128 (suc k) (omega arith)))
    ∙ ap (λ (t : ℕ). ok (t, rest)) (regroup acc (w / p) (128 ^ k) p w (w % p) (pow_128 k) split.1)

pack_byte : (x : ℕ) → x < 256 → pack 1 x ≡ ok (x ∷ [])
unfolding pack to_be
pack_byte x h = ground arith

-- One round of the writer that is not the last, on the value `w` that it looks at.
write_group :
    (k modulus i w : ℕ)
    → (if modulus == 0 then i else i % modulus) ≡ w
    → w < 128 ^ suc (suc k)
    → write_groups (suc (suc k)) modulus i
      ≡ (ok ((w / 128 ^ suc k + 128) ∷ []) then_write write_groups (suc k) (128 ^ suc k) i)
write_group k modulus i w e h =
    unfold write_groups in
    ap (λ m. m then_write write_groups (suc k) (128 ^ suc k) i)
      {y = ok ((w / 128 ^ suc k + 128) ∷ [])} (rw e first_byte)
  where
    split : (w / 128 ^ suc k < 128) × (w ≡ w / 128 ^ suc k * 128 ^ suc k + w % 128 ^ suc k)
    split =
        group_split w (128 ^ suc k) (pow_pos 128 (suc k) (omega arith)) (rw (pow_128 (suc k)) at h)

    first_byte :
        pack 1 (w / 128 ^ suc k + (if ltb 0 (suc k) then 128 else 0))
        ≡ ok ((w / 128 ^ suc k + 128) ∷ [])
    first_byte =
        ap (pack 1) (ground arith) ∙ pack_byte (w / 128 ^ suc k + 128) (omega (arith, split.0))

low_value : (k i : ℕ) → (if 128 ^ suc k == 0 then i else i % 128 ^ suc k) ≡ i % 128 ^ suc k
low_value k i = ground (arith, pow_pos 128 (suc k))

mod-mod_128 : (k i : ℕ) → i % 128 ^ suc (suc k) % 128 ^ suc k ≡ i % 128 ^ suc k
mod-mod_128 k i =
    mod-mod_of_dvd (128 ^ suc k) i (rw (pow_128 (suc k)) (dvd-mul_right (128 ^ suc k) 128))

write_groups-encoding :
    (k i : ℕ) → write_groups (suc k) (128 ^ suc k) i ≡ ok (encoding k (i % 128 ^ suc k))
write_groups-encoding zero i = unfold write_groups in ground (arith, pack_byte (i % 128 / 1 + 0))
write_groups-encoding (suc k) i =
    write_group k (128 ^ suc (suc k)) i (i % 128 ^ suc (suc k)) (low_value (suc k) i)
      (mod-lt i (pow_pos 128 (suc (suc k)) (omega arith)))
    ∙ ap (λ m. ok ((i % 128 ^ suc (suc k) / 128 ^ suc k + 128) ∷ []) then_write m)
        (write_groups-encoding k i)
    ∙ rw (mod-mod_128 k i)

-- In the first round the modulus is 0, and the number is looked at whole.
write_groups_first : (k i : ℕ) → i < 128 ^ suc k → write_groups (suc k) 0 i ≡ ok (encoding k i)
write_groups_first zero i h = unfold write_groups in ground (arith, pack_byte (i / 1 + 0))
write_groups_first (suc k) i h =
    write_group k 0 i i refl h
    ∙ ap (λ m. ok ((i / 128 ^ suc k + 128) ∷ []) then_write m) (write_groups-encoding k i)

pub vlq_writes : (i : ℕ) → stream_serialize_vlq i ≡ ok (encoding (bit_length i / 7) i)
unfolding stream_serialize_vlq
vlq_writes i =
    ap (λ k. write_groups k 0 i) (omega arith)
    ∙ write_groups_first (bit_length i / 7) i
        (subst (λ k. i < 128 ^ k) (omega arith) (groups_suffice i))

-- Every number is written as a VLQ without an error, and its bytes, followed by anything, are read
-- back as the number, and what follows is left.
pub vlq-RoundTrips : (i : ℕ) → RoundTrips (stream_serialize_vlq i) stream_deserialize_vlq i
vlq-RoundTrips i = record {
  bytes = encoding (bit_length i / 7) i;
  writes = vlq_writes i;
  reads = record {
    at = λ rest.
        unfold stream_deserialize_vlq in
        read_groups-encoding (bit_length i / 7) i 0 rest
          (subst (λ k. i < 128 ^ k) (omega arith) (groups_suffice i))
        ∙ ap (λ (t : ℕ). ok (t, rest)) (omega arith);
  };
}

pub length-encoding : (k w : ℕ) → length (encoding k w) ≡ suc k
length-encoding zero w = refl
length-encoding (suc k) w = ap suc (length-encoding k (w % 128 ^ suc k))
