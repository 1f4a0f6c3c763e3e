-- ===== src/Tests.antt =====
-- Concrete runs of the definitions, and the theorems at concrete inputs.
mod Policies
mod Sandboxes
mod Registries
mod Runs
mod Tools
mod Catalogues
mod Serving
mod Listing
mod Answers
mod Json
mod Successes
