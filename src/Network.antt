-- ===== src/Network.antt =====
-- skepticoin/networking: the messages between the nodes, the framing of the stream between two of
-- them, and the state that a node keeps of its peers and of the chain.
pub mod Params
pub mod Messages
pub mod Receiver
pub mod Os
pub mod State
pub mod Method
pub mod Sending
pub mod Manager
pub mod Inventory
pub mod Blocks
pub mod Node
pub mod Keeps
pub mod Sane
pub mod Peers
pub mod Pool
