-- ===== src/Tests.antt =====
-- Runs of the model on concrete orders, and the witnesses of the theorems.
mod Book
mod Sample
mod Witnesses
mod Engine
mod Listing
mod Baselines
mod Demos
mod Orders
