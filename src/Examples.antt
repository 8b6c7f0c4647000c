-- ===== src/Examples.antt =====
-- Runs of the formats and the cryptographic operations, and their theorems at concrete inputs. The
-- models of the crates here satisfy the laws, and nothing else is asked of them.
mod Models
mod Formats
mod Keys
mod Masking
mod Binding
mod Documents
mod Spans
