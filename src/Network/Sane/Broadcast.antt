-- ===== src/Network/Sane/Broadcast.antt =====
-- What `broadcast_message` of skepticoin/networking/manager.py has no part in.
use skepticoin.Crypto.{Crypto}
use skepticoin.CoinState.{CoinState}
use skepticoin.Network.Os.{Os}
use skepticoin.Network.Keeps.{Keeps}
use skepticoin.Network.Sane.{IsGood, send_message-IsGood}
use skepticoin.Datatypes.{Block}
use skepticoin.Network.Blocks.{
  announce, broadcast_block, broadcast_message, send_or_go_on, send_to_all,
}
use skepticoin.Network.Keeps.{Keeps-bind, Keeps-gets, Keeps-lift, Keeps-pure, Keeps-when}
use skepticoin.Network.Messages.{DataMessage, Message, MessageHeader}
use skepticoin.Network.Pool.{ChainManager}
use skepticoin.Network.State.{DisconnectedPeer, PeerKey}
use skepticoin.Prelude.{List, [], none, ℕ, ◌∷◌}
use skepticoin.Prelude.Eq.{list_eq, nat_eq}
use skepticoin.Prelude.Map.{Map}

module _ ⦃os : Os⦄ ⦃c : Crypto⦄ (S : Map PeerKey ℕ → Map PeerKey DisconnectedPeer → Type 0)
    (Q : ChainManager → Type 0) where
  send_or_go_on-IsGood : (i : ℕ) (m : Message) → Keeps (IsGood S Q) (send_or_go_on i m)
  unfolding send_or_go_on
  send_or_go_on-IsGood i m = record { kept = λ n g. (send_message-IsGood S Q i m none).kept n g }

  send_to_all-IsGood : (m : Message) (is : List ℕ) → Keeps (IsGood S Q) (send_to_all m is)
  unfolding send_to_all
  send_to_all-IsGood m [] = Keeps-pure (IsGood S Q) tt
  send_to_all-IsGood m (i ∷ is) =
      Keeps-bind (IsGood S Q) (send_or_go_on-IsGood i m) (λ u. send_to_all-IsGood m is)

  pub broadcast_message-IsGood : (m : DataMessage) → Keeps (IsGood S Q) (broadcast_message m)
  unfolding broadcast_message
  broadcast_message-IsGood m = search (Keeps-bind, Keeps-gets, send_to_all-IsGood)

  pub announce-IsGood :
      (h : MessageHeader) (b : Block) (s : CoinState) → Keeps (IsGood S Q) (announce h b s)
  unfolding announce broadcast_block
  announce-IsGood h b s = search (Keeps-bind, Keeps-lift, Keeps-when, broadcast_message-IsGood)
