-- ===== src/Examples.antt =====
-- The theorems applied to concrete inputs, over small stand-ins for the parameters of the model.
mod Toys
mod Values
mod Export
mod Machine
mod Api
mod Document
mod Parts
mod Objects
mod Processes
mod Collect
mod Odbc
mod Database
mod Retry
