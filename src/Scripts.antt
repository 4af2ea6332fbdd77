-- ===== src/Scripts.antt =====
-- scripts: the tools that move and repair the uploaded files.
pub mod ContentTypes
pub mod References
pub mod Keys
pub mod Repairs
pub mod Runs
pub mod Environment
pub mod Copies
pub mod Rewrites
pub mod Migration
pub mod Addresses
pub mod Origins
mod Tests
