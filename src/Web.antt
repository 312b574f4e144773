-- ===== src/Web.antt =====
-- apps/web/src/lib and the logic of apps/web/src/routes/app.tsx: what the page reads of the chain, what
-- it makes of the visitor's input, and what it shows.
mod Tests
pub mod Numbers
pub mod Format
pub mod History
pub mod Chain
pub mod Page
pub mod Register
pub mod Wallet
