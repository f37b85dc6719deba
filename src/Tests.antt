-- ===== src/Tests.antt =====
-- Runs of the model on concrete messages, and the theorems at inputs that meet their hypotheses.
mod Messages
mod Memory
mod Creation
mod Dialects
mod Tables
mod Xml
mod Loader
mod Loading
mod Command
