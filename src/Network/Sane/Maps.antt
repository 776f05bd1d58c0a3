-- ===== src/Network/Sane/Maps.antt =====
-- The updates of the two maps of peers of `NetworkManager` in skepticoin/networking/manager.py.
use skepticoin.Network.Sane.{IsSane}
use skepticoin.Network.State.{DisconnectedPeer, PeerKey, peer_key_eq}
use skepticoin.Prelude.{ℕ, arith, none, false, ◌≡◌, refl, Bool-cases, inl, inr, ◌≢◌}
use skepticoin.Prelude.Eq.{≟_iff, ◌≟◌}
use skepticoin.Prelude.Map.{Map, contains, erase, insert, lookup}
use skepticoin.Prelude.Map.Laws.{
  lookup-erase-none, insert_there, erase-IsUnique, insert-IsUnique, lookup-erase_ne,
  lookup-erase_self,
}
use skepticoin.Network.Manager.{any_shared}
use skepticoin.Prelude.Eq.{list_eq, nat_eq}
use mathlib.Core.Path.{subst}
use skepticoin.Prelude.{some}
use skepticoin.Prelude.Map.Laws.{erase-IsUnique}
use skepticoin.Prelude.{[], sym, ◌∙◌, ◌∷◌}
use skepticoin.Prelude.Map.{IsUnique}
use skepticoin.Prelude.Map.Laws.{lookup-insert_ne}
use skepticoin.Prelude.Eq.{≟_refl}
use skepticoin.Prelude.Map.Laws.{contains-eq_true}

module _ {connected : Map PeerKey ℕ} {disconnected : Map PeerKey DisconnectedPeer} where
  pub erase_connected :
      (k : PeerKey) → IsSane connected disconnected → IsSane (erase k connected) disconnected
  erase_connected k s = record {
    connected_unique = erase-IsUnique k connected s.connected_unique;
    disconnected_unique = s.disconnected_unique;
    apart = λ j h. lookup-erase-none k j connected (s.apart j h);
  }

  insert_apart :
      (k j : PeerKey) (d : DisconnectedPeer) {d' : DisconnectedPeer}
      → lookup k connected ≡ none
      → IsSane connected disconnected
      → lookup j (insert k d disconnected) ≡ some d'
      → lookup j connected ≡ none
  insert_apart k j d free s h = elim (Bool-cases (k ≟ j)) [
    | inl e ↦ subst (λ x. lookup x connected ≡ none) ((≟_iff k j).0 e) free
    | inr e ↦ s.apart j (insert_there j k d disconnected e h)
  ]

  erase_apart :
      (k j : PeerKey) (i : ℕ) {d' : DisconnectedPeer}
      → IsSane connected disconnected
      → lookup j (erase k disconnected) ≡ some d'
      → lookup j (insert k i connected) ≡ none
  erase_apart k j i s h = elim (Bool-cases (k ≟ j)) [
    | inl e ↦
        absurd
          (ground (arith, (≟_iff k j).0 e, lookup-erase_self k disconnected s.disconnected_unique))
    | inr e ↦
        (let other : j ≢ k = λ q. ground (arith, ≟_iff k j) in
          lookup-insert_ne k j i connected other
          ∙ s.apart j (sym (lookup-erase_ne k j disconnected other) ∙ h))
  ]

  pub insert_disconnected :
      (k : PeerKey) (d : DisconnectedPeer)
      → lookup k connected ≡ none
      → IsSane connected disconnected
      → IsSane connected (insert k d disconnected)
  insert_disconnected k d free s = record {
    connected_unique = s.connected_unique;
    disconnected_unique = insert-IsUnique k d disconnected s.disconnected_unique;
    apart = λ j h. insert_apart k j d free s h;
  }

  pub insert_connected :
      (k : PeerKey) (i : ℕ)
      → IsSane connected disconnected
      → IsSane (insert k i connected) (erase k disconnected)
  insert_connected k i s = record {
    connected_unique = insert-IsUnique k i connected s.connected_unique;
    disconnected_unique = erase-IsUnique k disconnected s.disconnected_unique;
    apart = λ j h. erase_apart k j i s h;
  }

  -- A new entry for a key that is there.
  pub renew_disconnected :
      (k : PeerKey) (d : DisconnectedPeer) {d' : DisconnectedPeer}
      → lookup k disconnected ≡ some d'
      → IsSane connected disconnected
      → IsSane connected (insert k d disconnected)
  renew_disconnected k d known s = insert_disconnected k d (s.apart k known) s

-- The check finds nothing.
pub any_shared_lem :
    (connected : Map PeerKey ℕ) (disconnected : Map PeerKey DisconnectedPeer)
    → IsUnique connected
    → ((k : PeerKey) (d : DisconnectedPeer)
        → lookup k disconnected ≡ some d
        → lookup k connected ≡ none)
    → any_shared connected disconnected ≡ false
unfolding any_shared lookup
any_shared_lem [] disconnected u h = refl
any_shared_lem ((k, i) ∷ connected) disconnected u h = elim (Bool-cases (contains k disconnected)) [
  | inl e ↦
      (let (d, known) = contains-eq_true k disconnected e in
        absurd (ground (arith, h k d known, ≟_refl k)))
  | inr e ↦
      rw e (any_shared_lem connected disconnected u.1 (λ j d known. ground (arith, h j d known)))
]
