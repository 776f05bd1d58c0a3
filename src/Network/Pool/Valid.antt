-- ===== src/Network/Pool/Valid.antt =====
-- The transactions that the pool of skepticoin/networking/manager.py holds.
use skepticoin.Crypto.{Crypto}
use skepticoin.Datatypes.{output_reference_eq}
use skepticoin.Datatypes.{OutputReference, Input, Transaction}
use skepticoin.CoinState.{CoinState}
use skepticoin.Network.Pool.{ChainManager}
use mathlib.Core.Path.{subst}
use skepticoin.Consensus.Validate.{
  Check, add_new_references, check_references, validate_non_coinbase_transaction_by_itself,
}
use skepticoin.Network.Pool.{caught, validate_at_head}
use skepticoin.Prelude.{All, Bool-cases, List, [], arith, false, inl, inr, refl, true, ◌∷◌, ◌≡◌}
use skepticoin.Prelude.Map.Except.{mem_key}
use skepticoin.Prelude.Result.{err, ok, ok-injective}
use skepticoin.Network.Pool.{valid_transactions}
use skepticoin.Prelude.Result.{
  address_parse, assertion_error, attribute_error, deserialization, index_error, key_error,
  not_implemented, overflow_error, plain_exception, recursion, signing_error, struct_error,
  truncation, type_error, validate_block, validate_block_header, validate_pow, validate_transaction,
  validation, value_error, zero_division,
}
use skepticoin.Network.Pool.{add_transaction_to_pool, new_chain_manager, set_coinstate, with_pool}
use skepticoin.Prelude.{Bool, ℕ}
use skepticoin.Prelude.Result.{>>=-eq_ok, Result}
use skepticoin.Consensus.Validate.{validate_no_duplicate_output_references_in_transactions}
use skepticoin.Network.Pool.{pool_with, validate_for_pool}
use skepticoin.Prelude.{ap, ◌++◌}

abbrev pub Fewer : List OutputReference → List OutputReference → Type 0
Fewer xs ys = (k : OutputReference) → mem_key k xs ≡ true → mem_key k ys ≡ true

Fewer-cons :
    (r : OutputReference) (xs ys : List OutputReference) → Fewer xs ys → Fewer (r ∷ xs) (r ∷ ys)
Fewer-cons r xs ys h k e = ground (arith, h k)

-- With fewer references seen, the same inputs are new.
add_new_references-Fewer :
    (is : List Input) (xs ys : List OutputReference) {ys' : List OutputReference}
    → Fewer xs ys
    → add_new_references ys is ≡ ok ys'
    → (xs' : List OutputReference) × (add_new_references xs is ≡ ok xs')
      × Fewer xs' ys'
      × Fewer ys ys'
unfolding add_new_references
add_new_references-Fewer [] xs ys {ys'} h e =
    let r : Fewer xs ys' × Fewer ys ys' =
      subst (λ z. Fewer xs z × Fewer ys z) (ok-injective e) (h, λ k m. m) in
    (xs, refl, r.0, r.1)
add_new_references-Fewer (i ∷ is) xs ys {ys'} h e =
    elim (Bool-cases (mem_key i.output_reference ys)) [
      | inl seen ↦ absurd (ground (arith, rw seen at e))
      | inr new ↦
          (let (xs', e', f, g) =
              add_new_references-Fewer is (i.output_reference ∷ xs) (i.output_reference ∷ ys)
                (Fewer-cons i.output_reference xs ys h) (rw new at e) in
            let unseen : mem_key i.output_reference xs ≡ false =
              ground (arith, h i.output_reference) in
            (xs', rw unseen e', f, λ k m. g k (ground (arith, m))))
    ]

pub check_references_nil : check_references [] [] ≡ ok tt
unfolding check_references
check_references_nil = refl

pub All-snoc :
    {A : Type 0} (P : A → Type 0) (xs : List A) (x : A) → All P xs → P x → All P (xs ++ (x ∷ []))
All-snoc P [] x h p = (p, tt)
All-snoc P (y ∷ ys) x (q, h) p = (q, All-snoc P ys x h p)

module _ ⦃c : Crypto⦄ where
  -- The transactions pass the checks that a block makes of its transactions after the first.
  pub record IsPoolValid (s : CoinState) (ts : List Transaction) : Type 0 where
    pub alone : All (λ t. validate_non_coinbase_transaction_by_itself t ≡ ok tt) ts
    pub at_head : All (λ t. validate_at_head s t ≡ ok tt) ts
    pub distinct : check_references [] ts ≡ ok tt

  pub caught-true : (k : Check) → caught k ≡ ok true → k ≡ ok tt
  unfolding caught
  caught-true (ok x) = λ e. refl
  caught-true (err x) = elim x as (λ y. caught (err y) ≡ ok true → err y ≡ ok tt) [
    | truncation ↦ λ e. cc
    | deserialization ↦ λ e. cc
    | validation ↦ λ e. cc
    | validate_transaction ↦ λ e. cc
    | validate_pow ↦ λ e. cc
    | validate_block_header ↦ λ e. cc
    | validate_block ↦ λ e. cc
    | address_parse ↦ λ e. cc
    | plain_exception ↦ λ e. cc
    | value_error ↦ λ e. cc
    | struct_error ↦ λ e. cc
    | key_error ↦ λ e. cc
    | index_error ↦ λ e. cc
    | assertion_error ↦ λ e. cc
    | overflow_error ↦ λ e. cc
    | zero_division ↦ λ e. cc
    | type_error ↦ λ e. cc
    | attribute_error ↦ λ e. cc
    | not_implemented ↦ λ e. cc
    | signing_error ↦ λ e. cc
    | recursion ↦ λ e. cc
  ]

  -- What is left of a pool: all of it that is valid at the head, in the same order.
  pub data Left (s : CoinState) : List Transaction → List Transaction → Type 0 where
    none_left : Left s [] []
    kept :
        {t : Transaction} {ts ts' : List Transaction}
        → validate_at_head s t ≡ ok tt
        → Left s ts ts'
        → Left s (t ∷ ts) (t ∷ ts')
    dropped : {t : Transaction} {ts ts' : List Transaction} → Left s ts ts' → Left s (t ∷ ts) ts'

  pub valid_transactions-Left :
      (s : CoinState) (ts : List Transaction) {ts' : List Transaction}
      → valid_transactions s ts ≡ ok ts'
      → Left s ts ts'
  unfolding valid_transactions
  valid_transactions-Left s [] h = subst (Left s []) (ok-injective h) none_left
  valid_transactions-Left s (t ∷ ts) h =
      (let (valid, e, h1) = >>=-eq_ok (caught (validate_at_head s t)) _ h in
        let (rest', e1, h2) = >>=-eq_ok (valid_transactions s ts) _ h1 in
        let left = valid_transactions-Left s ts e1 in
        elim (Bool-cases valid) [
          | inl is_valid ↦
              subst (Left s (t ∷ ts)) (ok-injective (rw is_valid at h2))
                (kept (caught-true (validate_at_head s t) (rw is_valid at e)) left)
          | inr invalid ↦ subst (Left s (t ∷ ts)) (ok-injective (rw invalid at h2)) (dropped left)
        ])

  Left-at_head :
      {s : CoinState} {ts ts' : List Transaction}
      → Left s ts ts'
      → All (λ t. validate_at_head s t ≡ ok tt) ts'
  Left-at_head none_left = tt
  Left-at_head (kept v l) = (v, Left-at_head l)
  Left-at_head (dropped l) = Left-at_head l

  pub Left-All :
      (P : Transaction → Type 0) {s : CoinState} {ts ts' : List Transaction}
      → Left s ts ts'
      → All P ts
      → All P ts'
  Left-All P none_left ps = tt
  Left-All P (kept v l) (p, ps) = (p, Left-All P l ps)
  Left-All P (dropped l) (p, ps) = Left-All P l ps

  pub Left-references :
      {s : CoinState} {ts ts' : List Transaction} (xs ys : List OutputReference)
      → Left s ts ts'
      → Fewer xs ys
      → check_references ys ts ≡ ok tt
      → check_references xs ts' ≡ ok tt
  unfolding check_references
  Left-references xs ys none_left f d = refl
  Left-references xs ys (kept {t = t} v l) f d =
      (let (ys', e, d1) = >>=-eq_ok (add_new_references ys t.inputs) _ d in
        let (xs', e', f', g) = add_new_references-Fewer t.inputs xs ys f e in
        rw e' (Left-references xs' ys' l f' d1))
  Left-references xs ys (dropped {t = t} l) f d =
      (let (ys', e, d1) = >>=-eq_ok (add_new_references ys t.inputs) _ d in
        let (xs', e', f', g) = add_new_references-Fewer t.inputs xs ys f e in
        Left-references xs ys' l (λ k m. g k (f k m)) d1)

  -- The life of the manager of a node: the calls of the two methods that change it, of
  -- `set_coinstate` those that return.
  pub data Reachable : ChainManager → Type 0 where
    at_start : (s : CoinState) (now : ℕ) → Reachable (new_chain_manager s now)
    after_set :
        {m m' : ChainManager} (s : CoinState) (validated : Bool)
        → Reachable m
        → set_coinstate m s validated ≡ (ok tt, m')
        → Reachable m'
    after_add :
        {m m' : ChainManager} (t : Transaction) (added : Result Bool)
        → Reachable m
        → add_transaction_to_pool m t ≡ (added, m')
        → Reachable m'

  IsManagerValid : ChainManager → Type 0
  IsManagerValid m = IsPoolValid m.coinstate m.transaction_pool

  Left-IsPoolValid :
      {s s' : CoinState} {ts ts' : List Transaction}
      → Left s' ts ts'
      → IsPoolValid s ts
      → IsPoolValid s' ts'
  Left-IsPoolValid l p = record {
    alone = Left-All (λ t. validate_non_coinbase_transaction_by_itself t ≡ ok tt) l p.alone;
    at_head = Left-at_head l;
    distinct = Left-references [] [] l (λ k m. m) p.distinct;
  }

  added-IsManagerValid :
      (m : ChainManager) (t : Transaction)
      → IsManagerValid m
      → validate_for_pool m t ≡ ok tt
      → IsManagerValid (record m { transaction_pool = m.transaction_pool ++ (t ∷ []) })
  unfolding IsManagerValid validate_for_pool validate_no_duplicate_output_references_in_transactions
  added-IsManagerValid m t p h =
      (let (u1, e1, h1) = >>=-eq_ok (validate_non_coinbase_transaction_by_itself t) _ h in
        let (u2, e2, h2) = >>=-eq_ok (validate_at_head m.coinstate t) _ h1 in
        record {
          alone =
              All-snoc (λ t. validate_non_coinbase_transaction_by_itself t ≡ ok tt)
                m.transaction_pool t p.alone e1;
          at_head =
              All-snoc (λ t. validate_at_head m.coinstate t ≡ ok tt) m.transaction_pool t p.at_head
                e2;
          distinct = h2;
        })

  with_pool-IsManagerValid :
      (m m' : ChainManager) (s : CoinState) (validated : Bool) (pool : List Transaction)
      → IsPoolValid s pool
      → with_pool m s validated (ok pool) ≡ (ok tt, m')
      → IsManagerValid m'
  unfolding IsManagerValid with_pool
  with_pool-IsManagerValid m m' s validated pool p h = subst IsManagerValid (ap (λ r. r.1) h) p

  set_coinstate-IsPoolValid :
      (m m' : ChainManager) (s : CoinState) (validated : Bool) (r : Result (List Transaction))
      → IsManagerValid m
      → valid_transactions s m.transaction_pool ≡ r
      → with_pool m s validated r ≡ (ok tt, m')
      → IsManagerValid m'
  unfolding with_pool IsManagerValid
  set_coinstate-IsPoolValid m m' s validated (err x) p e h = cc
  set_coinstate-IsPoolValid m m' s validated (ok pool) p e h =
      with_pool-IsManagerValid m m' s validated pool
        (Left-IsPoolValid (valid_transactions-Left s m.transaction_pool e) p) h

  pool_with-IsPoolValid :
      (m m' : ChainManager) (t : Transaction) (k : Result Bool) (r : Result Bool)
      → IsManagerValid m
      → caught (validate_for_pool m t) ≡ k
      → pool_with m t k ≡ (r, m')
      → IsManagerValid m'
  unfolding pool_with
  pool_with-IsPoolValid m m' t (ok true) r p e h =
      subst IsManagerValid (ap (λ x. x.1) h)
        (added-IsManagerValid m t p (caught-true (validate_for_pool m t) e))
  pool_with-IsPoolValid m m' t (ok false) r p e h = subst IsManagerValid (ap (λ x. x.1) h) p
  pool_with-IsPoolValid m m' t (err x) r p e h = subst IsManagerValid (ap (λ x. x.1) h) p

  -- Whatever the calls of `set_coinstate` and `add_transaction_to_pool` are, and also when a call of
  -- the latter raises, the transactions in the pool are valid by themselves and at the head of the
  -- coin state, and no two of their inputs spend the same output.
  pub Reachable-IsPoolValid :
      (m : ChainManager) → Reachable m → IsPoolValid m.coinstate m.transaction_pool
  unfolding IsManagerValid set_coinstate add_transaction_to_pool
  Reachable-IsPoolValid m r = go r
    where
      go : {m : ChainManager} → Reachable m → IsManagerValid m
      go (at_start s now) = record { alone = tt; at_head = tt; distinct = check_references_nil }
      go (after_set {m = m} {m' = m'} s validated r h) =
          set_coinstate-IsPoolValid m m' s validated (valid_transactions s m.transaction_pool)
            (go r) refl h
      go (after_add {m = m} {m' = m'} t added r h) =
          pool_with-IsPoolValid m m' t (caught (validate_for_pool m t)) added (go r) refl h
