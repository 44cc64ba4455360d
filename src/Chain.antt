-- ===== src/Chain.antt =====
-- The ledger of the node, core/blockchain.py.
pub mod State
pub mod Check
pub mod Validate
pub mod Execute
pub mod Apply
pub mod Balances
pub mod Spend
pub mod Call
pub mod Accept
pub mod Reward
pub mod Block
pub mod Supply
pub mod Store
pub mod Link
pub mod Issue
pub mod Sound
pub mod Walk
pub mod Ancestor
pub mod Meet
pub mod Branch
pub mod Segment
pub mod Difficulty
pub mod Raise
pub mod Select
pub mod Choice
pub mod Pending
pub mod Reconcile
pub mod Revalidate
pub mod Reorganize
pub mod Query
pub mod Forecast
pub mod Add
pub mod Signed
pub mod Serialize
pub mod Wire
pub mod RoundTrip
pub mod Sent
pub mod Settle
