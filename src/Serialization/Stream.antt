-- ===== src/Serialization/Stream.antt =====
-- Readers of a stream of bytes, and `safe_read` of skepticoin/serialization.py.
use skepticoin.Prelude.{Bytes, drop, if◌then◌else◌, length, ltb, take, ℕ, ◌-◌}
use skepticoin.Prelude.Result.{Error, Result, err, ok, truncation}

abbrev pub Reader : Type 0 → Type 0
Reader A = Bytes → Result (A × Bytes)

module _ {A B : Type 0} where
  infixl 5 ◌>>=◌ ◌>>◌
  unfoldable pub ◌>>=◌ : Reader A → (A → Reader B) → Reader B
  ◌>>=◌ m f s = elim (m s) [ ok r ↦ f r.0 r.1 | err e ↦ err e ]

  abbrev pub ◌>>◌ : Reader A → Reader B → Reader B
  m >> k = m >>= λ _. k

module _ {A : Type 0} where
  unfoldable pub pure : A → Reader A
  pure a s = ok (a, s)

  unfoldable pub raise : Error → Reader A
  raise e s = err e

  -- A value that the code computes with no reading, and that may raise.
  unfoldable pub lift : Result A → Reader A
  lift r s = elim r [ ok a ↦ ok (a, s) | err e ↦ err e ]

  -- The value with the bytes that its reader took: `f.tell()`, the reader, `f.tell()` again,
  -- `f.seek(start)` and `f.read(end - start)`.
  unfoldable pub with_consumed : Reader A → Reader (A × Bytes)
  with_consumed m s = elim (m s) [
    | ok r ↦ ok ((r.0, take (length s - length r.1) s), r.1)
    | err e ↦ err e
  ]

unfoldable pub safe_read : ℕ → Reader Bytes
safe_read n f = let r = take n f in if ltb (length r) n then err truncation else ok (r, drop n f)
