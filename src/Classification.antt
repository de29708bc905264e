-- ===== src/Classification.antt =====
-- networkmapper/classification: the ordered rules that give a device its type. The modules below
-- hold the helpers that read evidence, the rules, and `DeviceClassifier` with its theorems.
mod Tests
pub mod Evidence
pub mod Hosts
pub mod Appliances
pub mod Vendors
pub mod Printers
pub mod Classifier
pub mod Loop
pub mod Outcomes
pub mod Precedence
pub mod Reruns
pub mod Spoolers
pub mod Identifiers
