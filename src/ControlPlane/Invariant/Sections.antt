-- ===== src/ControlPlane/Invariant/Sections.antt =====
-- Each critical section keeps the invariant, whatever the others have done before it.
pub mod Claim
pub mod Register
pub mod Drop
pub mod Renew
pub use Claim.*
pub use Register.*
pub use Drop.*
pub use Renew.*
