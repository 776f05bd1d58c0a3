-- ===== src/Network/Keeps.antt =====
-- Predicates of a node that a method of skepticoin/networking leaves true, whether it returns or
-- raises: how they follow from the parts of the method.
use skepticoin.Network.Os.{Os}
use skepticoin.Network.State.{Node}
use skepticoin.Network.Method.{Method, after, change, gets, lift, pure, quiet, raise, when, ◌>>=◌}
use skepticoin.Prelude.{Bool, true, false, if◌then◌else◌}
use skepticoin.Prelude.Result.{Error, Result, err, ok}
use skepticoin.Prelude.{refl, ◌≡◌}
use skepticoin.Network.Method.{ask}
use skepticoin.Prelude.{ℕ, ◌+◌}

module _ ⦃os : Os⦄ (P : Node → Type 0) where
  pub record Keeps {A : Type 0} (m : Method A) : Type 0 where
    pub kept : (n : Node) → P n → P (m n).1

  Keeps-after :
      {A B : Type 0} (r : Result A × Node) (next : A → Method B)
      → P r.1
      → ((a : A) → Keeps (next a))
      → P (after r next).1
  Keeps-after (err e, n) next h k = h
  Keeps-after (ok a, n) next h k = (k a).kept n h

  pub Keeps-bind :
      {A B : Type 0} {m : Method A} {next : A → Method B}
      → Keeps m
      → ((a : A) → Keeps (next a))
      → Keeps (m >>= next)
  unfolding ◌>>=◌
  Keeps-bind {m = m} {next = next} h k = record {
    kept = λ n p. Keeps-after (m n) next (h.kept n p) k;
  }

  pub Keeps-if :
      {A : Type 0} (b : Bool) {m k : Method A} → Keeps m → Keeps k → Keeps (if b then m else k)
  Keeps-if true h g = h
  Keeps-if false h g = g

  pub Keeps-pure : {A : Type 0} (a : A) → Keeps (pure a)
  unfolding pure
  Keeps-pure a = record { kept = λ n p. p }

  pub Keeps-raise : {A : Type 0} (e : Error) → Keeps (raise {A = A} e)
  unfolding raise
  Keeps-raise e = record { kept = λ n p. p }

  pub Keeps-lift : {A : Type 0} (r : Result A) → Keeps (lift r)
  unfolding lift
  Keeps-lift r = record { kept = λ n p. p }

  pub Keeps-gets : {A : Type 0} (f : Node → A) → Keeps (gets f)
  unfolding gets
  Keeps-gets f = record { kept = λ n p. p }

  pub Keeps-change : (f : Node → Node) → ((n : Node) → P n → P (f n)) → Keeps (change f)
  unfolding change
  Keeps-change f h = record { kept = h }

  pub Keeps-when : (b : Bool) {m : Method (Unit {0})} → Keeps m → Keeps (when b m)
  unfolding when
  Keeps-when b h = Keeps-if b h (Keeps-pure tt)

  pub Keeps-quiet : {A : Type 0} {m : Method A} → Keeps m → Keeps (quiet m)
  unfolding quiet
  Keeps-quiet h = record { kept = λ n p. h.kept n p }

  -- At one node.
  pub bind_at :
      {A B : Type 0} {n : Node} (m : Method A) (next : A → Method B)
      → P (m n).1
      → ((a : A) → Keeps (next a))
      → P ((m >>= next) n).1
  unfolding ◌>>=◌
  bind_at {n = n} m next h k = Keeps-after (m n) next h k

  pub if_at :
      {A : Type 0} {n : Node} (b : Bool) (m k : Method A)
      → (b ≡ true → P (m n).1)
      → P (k n).1
      → P ((if b then m else k) n).1
  if_at true m k h g = h refl
  if_at false m k h g = g

  pub when_at :
      {n : Node} (b : Bool) (m : Method (Unit {0}))
      → (b ≡ true → P (m n).1)
      → P n
      → P (when b m n).1
  unfolding when pure
  when_at b m h g = if_at b m (pure tt) h g

  -- The node itself is read.
  pub Keeps-self :
      {B : Type 0} {A : Type 0} (f : Node → A) (next : A → Method B)
      → ((n : Node) → P n → P (next (f n) n).1)
      → Keeps (gets f >>= next)
  unfolding ◌>>=◌ gets
  Keeps-self f next h = record { kept = h }

  -- A computation that may raise, and what is done with its value.
  pub lift_at :
      {A B : Type 0} {n : Node} (r : Result A) (next : A → Method B)
      → ((a : A) → r ≡ ok a → P (next a n).1)
      → P n
      → P ((lift r >>= next) n).1
  unfolding ◌>>=◌ lift
  lift_at (err e) next h p = p
  lift_at (ok a) next h p = h a refl

  pub gets_at :
      {A B : Type 0} {n : Node} (f : Node → A) (next : A → Method B)
      → P (next (f n) n).1
      → P ((gets f >>= next) n).1
  unfolding ◌>>=◌ gets
  gets_at f next p = p

  pub change_at :
      {B : Type 0} {n : Node} (f : Node → Node) (next : Unit {0} → Method B)
      → P (next tt (f n)).1
      → P ((change f >>= next) n).1
  unfolding ◌>>=◌ change
  change_at f next p = p

  pub ask_at :
      {A B : Type 0} {n : Node} (f : ℕ → A) (next : A → Method B)
      → P (next (f n.calls) (record n { calls = n.calls + 1 })).1
      → P ((ask f >>= next) n).1
  unfolding ◌>>=◌ ask
  ask_at f next p = p

-- From one predicate to another, which a raise keeps too.
module _ ⦃os : Os⦄ (P Q : Node → Type 0) where
  leads_after :
      {A B : Type 0} (r : Result A × Node) (next : A → Method B)
      → ((n : Node) → P n → Q n)
      → P r.1
      → ((a : A) (n : Node) → P n → Q (next a n).1)
      → Q (after r next).1
  leads_after (err e, n) next w h k = w n h
  leads_after (ok a, n) next w h k = k a n h

  pub leads_bind :
      {A B : Type 0} {m : Method A} (next : A → Method B)
      → ((n : Node) → P n → Q n)
      → Keeps P m
      → ((a : A) (n : Node) → P n → Q (next a n).1)
      → (n : Node) → P n
      → Q ((m >>= next) n).1
  unfolding ◌>>=◌
  leads_bind {m = m} next w h k n p = leads_after (m n) next w (h.kept n p) k
