-- ===== src/Consensus/Checkpoints.antt =====
-- The checkpoints in the validation of skepticoin/consensus.py.
use Prim.Native.String.{String}
use skepticoin.Crypto.{Crypto}
use skepticoin.Datatypes.{Block}
use skepticoin.Prelude.{true, refl}
use skepticoin.CoinState.{CoinState}
use skepticoin.Cheating.{known_hashes, max_known_hash_height}
use skepticoin.Consensus.Validate.{validate_block_in_coinstate, validate_checkpoint}
use skepticoin.Datatypes.Hash.{block_hash}
use skepticoin.Humans.{char_codes, computer}
use skepticoin.Prelude.{Bytes, Option, ap, arith, leb, none, not, some, sym, ◌↔◌, ◌∙◌, ◌≡◌, ◌≤◌}
use skepticoin.Prelude.Eq.{list_eq, nat_eq, ≟_iff, ≟_refl, ◌≟◌}
use skepticoin.Prelude.Map.{lookup}
use skepticoin.Prelude.Result.{>>=-eq_ok, ok, raise_if-eq_ok, validation}
use mathlib.Core.Path.{subst}
use skepticoin.Consensus.Validate.{validate_known_hash}
use skepticoin.Cheating.{max_key}
use skepticoin.CoinState.Invariant.{add_block_no_validation-Added}
use skepticoin.Consensus.Supply.{add_block_parts}
use skepticoin.Consensus.Validate.{add_block}
use skepticoin.Prelude.{Bool-cases, [], inl, inr, ℕ, ◌<◌, ◌∷◌, ◌⊎◌}
use skepticoin.Prelude.Map.{Map, insert}
use skepticoin.Prelude.Map.Laws.{insert_here, insert_there}

lookup-max_key : (n : ℕ) (m : Map ℕ String) {text : String} → lookup n m ≡ some text → n ≤ max_key m
unfolding lookup max_key
lookup-max_key n [] e = ground arith
lookup-max_key n ((k, w) ∷ m) {text = text} e =
    ground (arith, ≟_iff k n, lookup-max_key n m {text = text})

le_cases : (m n : ℕ) → (m ≤ n) ⊎ (n < m)
le_cases m n = elim (Bool-cases (leb m n)) [
  | inl e ↦ inl (ground arith)
  | inr e ↦ inr (ground arith)
]

module _ ⦃c : Crypto⦄ where
  -- The block has the hash of the checkpoint at its height, if there is one.
  abbrev pub AtCheckpoint : Block → Type 0
  AtCheckpoint b =
      (text : String)
      → lookup b.height known_hashes ≡ some text
      → (h : Bytes) × (block_hash b ≡ ok h) × (computer (char_codes text) ≡ ok h)

  known_hash_iff :
      (b : Block) (o : Option String)
      → (validate_known_hash b o ≡ ok tt) ↔ (
          (text : String)
          → o ≡ some text
          → (h : Bytes) × (block_hash b ≡ ok h) × (computer (char_codes text) ≡ ok h))
  unfolding validate_known_hash
  known_hash_iff b none = ((λ h text e. absurd (ground (arith, e))), (λ h. refl))
  known_hash_iff b (some text) = (
    (λ passed other e.
        let (hash, h1, h2) = >>=-eq_ok (block_hash b) _ passed in
        let (known, h3, h4) = >>=-eq_ok (computer (char_codes text)) _ h2 in
        let equal : hash ≡ known =
          ground (arith, raise_if-eq_ok (not (hash ≟ known)) validation h4, ≟_iff hash known) in
        let named : text ≡ other = ground (arith, e) in
        (hash, h1, subst (λ t. computer (char_codes t) ≡ ok hash) named (h3 ∙ ap ok (sym equal)))),
    (λ h. let (hash, h1, h2) = h text refl in rw (h1, h2, ≟_refl hash) refl),
  )

  early_block :
      (s : CoinState) (b : Block)
      → b.height ≤ max_known_hash_height
      → validate_block_in_coinstate b s ≡ ok tt
      → AtCheckpoint b
  unfolding validate_block_in_coinstate validate_checkpoint
  early_block s b h e =
      let early : leb b.height max_known_hash_height ≡ true = ground arith in
      (known_hash_iff b (lookup b.height known_hashes)).0 (rw early at e)

  -- After the last checkpoint there is none.
  late_block : (b : Block) → max_known_hash_height < b.height → AtCheckpoint b
  unfolding max_known_hash_height
  late_block b h text e = absurd (omega (arith, h, lookup-max_key b.height known_hashes e))

  accepted-AtCheckpoint :
      (s : CoinState) (b : Block) → validate_block_in_coinstate b s ≡ ok tt → AtCheckpoint b
  accepted-AtCheckpoint s b e = elim (le_cases b.height max_known_hash_height) [
    | inl h ↦ early_block s b h e
    | inr h ↦ late_block b h
  ]

  abbrev pub AllAtCheckpoint : CoinState → Type 0
  AllAtCheckpoint s = (k : Bytes) (b : Block) → lookup k s.block_by_hash ≡ some b → AtCheckpoint b

  -- The states that are made of `s` by `add_block`.
  pub data Extends (s : CoinState) : CoinState → Type 0 where
    unchanged : Extends s s
    with_block :
        {t u : CoinState} (b : Block) (now : ℕ)
        → Extends s t
        → add_block t b now ≡ ok u
        → Extends s u

  add_block-AllAtCheckpoint :
      (s s' : CoinState) (b : Block) (now : ℕ)
      → AllAtCheckpoint s
      → add_block s b now ≡ ok s'
      → AllAtCheckpoint s'
  add_block-AllAtCheckpoint s s' b now old e k other found =
      let (own, fits, added) = add_block_parts s b now s' e in
      let a = add_block_no_validation-Added s b s' added in
      let there : lookup k (insert a.hash b s.block_by_hash) ≡ some other =
        ap (λ m. lookup k m) (sym a.blocks) ∙ found in
      elim (Bool-cases (a.hash ≟ k)) [
        | inl here ↦
            subst AtCheckpoint (insert_here k a.hash b s.block_by_hash here there)
              (accepted-AtCheckpoint s b fits)
        | inr away ↦ old k other (insert_there k a.hash b s.block_by_hash away there)
      ]

  Extends-AllAtCheckpoint :
      {s s' : CoinState} → AllAtCheckpoint s → Extends s s' → AllAtCheckpoint s'
  Extends-AllAtCheckpoint h unchanged = h
  Extends-AllAtCheckpoint {s' = u} h (with_block {t} b now g e) =
      add_block-AllAtCheckpoint t u b now (Extends-AllAtCheckpoint h g) e

  -- From a state whose blocks all have the hash of the checkpoint at their height, if there is one, add
  -- any blocks by `add_block`, on any forks: the forks do not differ at a checkpoint. Any two blocks of
  -- the state at the height of a checkpoint have the same hash, which is the one of the checkpoint.
  pub checkpoints_agree :
      (s s' : CoinState) (k1 k2 : Bytes) (b1 b2 : Block) (text : String)
      → AllAtCheckpoint s
      → Extends s s'
      → lookup k1 s'.block_by_hash ≡ some b1
      → lookup k2 s'.block_by_hash ≡ some b2
      → b1.height ≡ b2.height
      → lookup b1.height known_hashes ≡ some text
      → (h : Bytes) × (computer (char_codes text) ≡ ok h)
        × (block_hash b1 ≡ ok h)
        × (block_hash b2 ≡ ok h)
  checkpoints_agree s s' k1 k2 b1 b2 text old g f1 f2 same known =
      let all = Extends-AllAtCheckpoint old g in
      let (h1, e1, c1) = all k1 b1 f1 text known in
      let (h2, e2, c2) = all k2 b2 f2 text (ap (λ n. lookup n known_hashes) (sym same) ∙ known) in
      (h1, c1, e1, e2 ∙ sym c2 ∙ c1)
