-- ===== src/Container.antt =====
-- bogvm/container.py: the binary container format. A reader is the list of the bytes not yet read.
pub mod Errors
pub mod Records
pub mod Validate
pub mod Build
pub mod Reconstruct
pub mod Valid
pub mod Restored
pub mod Counts
pub mod Plans
pub mod RoundTrip
pub mod Bitmask
pub mod Masks
pub mod Masked
pub mod Descriptor
pub mod Hex
pub mod HexTexts
pub mod Encode
pub mod Decode
pub mod Descriptors
pub mod Entries
pub mod StreamsRead
pub mod StreamsWhole
pub mod Unpacked
pub mod Header
pub mod Packed
pub mod PackRoundTrip
pub mod Accepted
pub mod Rounds
pub mod Assembly
pub mod Varuint
pub mod Residuals
mod Runs
pub mod Rebuilt
mod Repacked
