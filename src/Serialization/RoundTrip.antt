-- ===== src/Serialization/RoundTrip.antt =====
-- What reading back means for a value that was written (skepticoin/serialization.py).
use skepticoin.Serialization.Stream.{◌>>=◌, Reader, pure, lift, with_consumed, safe_read}
use mathlib.Core.Path.{subst}
use skepticoin.Prelude.{
  Bytes, append_assoc, arith, drop-append_length, length, take-append_length, ℕ, ◌++◌, ◌≡◌,
}
use skepticoin.Prelude.Result.{Result, ok}
use skepticoin.Prelude.{ap, length-append, take, ◌-◌, ◌∙◌}

-- The reader takes exactly the bytes `b`, whatever follows them, and returns `a`.
pub record Reads {A : Type 0} (m : Reader A) (b : Bytes) (a : A) : Type 0 where
  pub at : (rest : Bytes) → m (b ++ rest) ≡ ok (a, rest)

-- A value is written without an error, and its bytes are read back as `a'`.
pub record RoundTrips {A : Type 0} (written : Result Bytes) (m : Reader A) (a' : A) : Type 0 where
  pub bytes : Bytes
  pub writes : written ≡ ok bytes
  pub reads : Reads m bytes a'

pub bind-eq :
    {A B : Type 0} (m : Reader A) (k : A → Reader B) {s s' : Bytes} {a : A}
    → m s ≡ ok (a, s')
    → (m >>= k) s ≡ k a s'
unfolding ◌>>=◌
bind-eq m k e = rw (e, ◌>>=◌)

module _ {A B : Type 0} where
  pub Reads-bind :
      (m : Reader A) (k : A → Reader B) {b c : Bytes} {a : A} {r : B}
      → Reads m b a
      → Reads (k a) c r
      → Reads (m >>= k) (b ++ c) r
  Reads-bind m k {b} {c} hm hk = record {
    at = λ rest. rw (append_assoc b c rest) (bind-eq m k (hm.at (c ++ rest)) ∙ hk.at rest);
  }

  -- The last read of a block.
  pub Reads-last :
      (m : Reader A) (f : A → B) {b : Bytes} {a : A}
      → Reads m b a
      → Reads (m >>= λ x. pure (f x)) b (f a)
  unfolding pure
  Reads-last m f hm = record { at = λ rest. bind-eq m (λ x. pure (f x)) (hm.at rest) }

  -- A computed value that does not raise takes no bytes.
  pub Reads-lift :
      (m : Reader A) (f : A → Result B) {b : Bytes} {a : A} {r : B}
      → Reads m b a
      → f a ≡ ok r
      → Reads (m >>= λ x. lift (f x)) b r
  unfolding lift
  Reads-lift m f hm e = record { at = λ rest. bind-eq m (λ x. lift (f x)) (hm.at rest) ∙ rw e }

pub Reads-safe_read : (b : Bytes) → Reads (safe_read (length b)) b b
unfolding safe_read
Reads-safe_read b = record {
  at = λ rest. rw (take-append_length b rest, drop-append_length b rest) (ground arith);
}

pub Reads-safe_read_of : (n : ℕ) (b : Bytes) → length b ≡ n → Reads (safe_read n) b b
Reads-safe_read_of n b e = subst (λ k. Reads (safe_read k) b b) e (Reads-safe_read b)

consumed_prefix : (b rest : Bytes) → take (length (b ++ rest) - length rest) (b ++ rest) ≡ b
consumed_prefix b rest =
    ap (λ k. take k (b ++ rest)) (omega (arith, length-append b rest)) ∙ take-append_length b rest

pub Reads-with_consumed :
    {A : Type 0} (m : Reader A) {b : Bytes} {a : A} → Reads m b a → Reads (with_consumed m) b (a, b)
unfolding with_consumed
Reads-with_consumed m {b} h = record {
  at = λ rest. rw (h.at rest, with_consumed) (rw (consumed_prefix b rest));
}

pub Reads-eq :
    {A : Type 0} {m : Reader A} {b : Bytes} {a a' : A} → Reads m b a → a ≡ a' → Reads m b a'
Reads-eq {m} {b} h e = subst (λ v. Reads m b v) e h
