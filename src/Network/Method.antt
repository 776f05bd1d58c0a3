-- ===== src/Network/Method.antt =====
-- A method call on a node of skepticoin/networking: it returns a value or raises, and leaves the node
-- as it was written until then.
use skepticoin.Network.Os.{Os}
use skepticoin.Network.State.{ConnectedPeer, DiskCall, Node}
use skepticoin.Network.Pool.{ChainManager}
use skepticoin.Prelude.{Bool, [], if◌then◌else◌, ℕ, ◌++◌, ◌+◌, ◌==◌, ◌∷◌}
use skepticoin.Prelude.Result.{Error, Result, err, ok}

module _ ⦃os : Os⦄ where
  abbrev pub Method : Type 0 → Type 0
  Method A = Node → Result A × Node

  unfoldable pub pure : {A : Type 0} → A → Method A
  pure a n = (ok a, n)

  unfoldable pub raise : {A : Type 0} → Error → Method A
  raise e n = (err e, n)

  unfoldable pub lift : {A : Type 0} → Result A → Method A
  lift r n = (r, n)

  abbrev pub after : {A B : Type 0} → Result A × Node → (A → Method B) → Result B × Node
  after (err e, n) next = (err e, n)
  after (ok a, n) next = next a n

  infixl 5 ◌>>=◌ ◌>>◌
  unfoldable pub ◌>>=◌ : {A B : Type 0} → Method A → (A → Method B) → Method B
  ◌>>=◌ m next n = after (m n) next

  abbrev pub ◌>>◌ : {A B : Type 0} → Method A → Method B → Method B
  m >> next = m >>= λ _. next

  unfoldable pub gets : {A : Type 0} → (Node → A) → Method A
  gets f n = (ok (f n), n)

  unfoldable pub change : (Node → Node) → Method (Unit {0})
  change f n = (ok tt, f n)

  unfoldable pub when : Bool → Method (Unit {0}) → Method (Unit {0})
  when b m = if b then m else pure tt

  -- `try: ... except Exception: pass`
  unfoldable pub quiet : {A : Type 0} → Method A → Method (Unit {0})
  quiet m n = (ok tt, (m n).1)

  unfoldable pub get_peer : ℕ → Method ConnectedPeer
  get_peer i = gets (λ n. n.peer_objects i)

  abbrev pub with_peer : ℕ → ConnectedPeer → Node → Node
  with_peer i p n = record n { peer_objects = λ j. if j == i then p else n.peer_objects j }

  unfoldable pub put_peer : ℕ → ConnectedPeer → Method (Unit {0})
  put_peer i p = change (with_peer i p)

  -- A method of the chain manager.
  unfoldable pub on_chain_manager :
      {A : Type 0} → (ChainManager → Result A × ChainManager) → Method A
  on_chain_manager f n = let r = f n.chain_manager in (r.0, record n { chain_manager = r.1 })

  unfoldable pub call_disk : DiskCall → Method (Unit {0})
  call_disk d = change (λ n. record n { disk = n.disk ++ (d ∷ []) })

  -- A question to the operating system, numbered.
  unfoldable pub ask : {A : Type 0} → (ℕ → A) → Method A
  ask f n = (ok (f n.calls), record n { calls = n.calls + 1 })

  abbrev pub with_selector : Node → Result os.Selector → Result (Unit {0}) × Node
  with_selector n (err e) = (err e, n)
  with_selector n (ok s) = (ok tt, record n { selector = s })

  -- What becomes of the selector.
  unfoldable pub on_selector : (os.Selector → Result os.Selector) → Method (Unit {0})
  on_selector f n = with_selector n (f n.selector)
