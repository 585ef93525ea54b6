-- ===== src/Optimizer.antt =====
-- bogvm/optimizer.py: the search for the basis whose output differs from the data in the fewest
-- bytes, and the patches that remain. `hashlib.sha256(data).hexdigest()` is the parameter `sha256`.
pub mod Patches
pub mod Search
pub mod Choice
pub mod Plan
pub mod Exact
pub mod Score
pub mod Transformed
pub mod Reversible
pub mod Chunks
pub mod Coverage
mod Runs
