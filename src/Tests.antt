-- ===== src/Tests.antt =====
-- Runs on small inputs, and the theorems at inputs that meet their hypotheses.
mod OneKey
mod OneDc
mod NodeMgr
mod MultiDc
mod Metadata
mod Scripts
mod Units
mod Control
