-- ===== src/Examples.antt =====
-- Small inputs: tests of the definitions, and the theorems applied where their hypotheses hold.
mod Sample
mod Jobs
mod Events
mod Toast
mod Links
mod Reconcile
mod Times
mod Pages
mod Rows
mod Api
mod Settings
mod Preview
mod Trim
