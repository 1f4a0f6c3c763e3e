-- ===== src/Parsers.antt =====
-- parsers/: one module for each tool. Lines has the loop over JSON lines that all but Nmap share, and
-- Tool the run of the tool under the sandbox.
pub mod Gather
pub mod Lines
pub mod Tool
pub mod Dedup
pub mod Links
pub mod Amass
pub mod Dnsx
pub mod Httpx
pub mod Masscan
pub mod Naabu
pub mod Nmap
pub mod Nuclei
pub mod Subfinder
pub mod Tools
pub mod Fields
