-- ===== src/Container/Records.antt =====
-- bogvm/container.py: containers, and the names of their chunks. A container is the dict that JSON
-- gives, with values of the types that the code checks; an optional entry that is missing is the
-- default that the code gives to `.get`. A name outside BASIS_ORDER or TRANSFORM_ORDER is `none`.
use Prim.Native.Char.{Char, code}
use Prim.Native.String.{String, ◌++◌ as append, count}
use bogbin.Common.{ℕ, Bool, true, ◌&&◌, ◌||◌, Option, List, [], ◌∷◌, ◌==◌, leb}
use bogbin.Common.Decimals.{four_digits}
use bogbin.Bases.{Basis}
use bogbin.Transforms.Names.{Transform}
use bogbin.Residual.{Residual}
use bogbin.Optimizer.Chunks.{Counts}

pub record Chunk : Type 0 where
  pub index : ℕ
  pub name : String
  pub offset : ℕ
  pub length : ℕ
  pub basis : Option Basis
  pub start_byte : ℕ
  pub delta : ℕ
  pub transform : Option Transform
  pub transform_param : ℕ
  pub residual_count : ℕ
  pub residuals : List Residual
  pub chunk_sha256 : String
  pub transformed_sha256 : String
  pub original_chunk_sha256 : String

-- A non-negative float is a number: its bit pattern, which has the order of the floats.
pub record TournamentResult : Type 0 where
  pub chunk_size : ℕ
  pub chunk_count : ℕ
  pub total_residual_count : ℕ
  pub residual_density : ℕ
  pub transform_counts : Option Counts

pub record Container : Type 0 where
  pub format : String
  pub vm_format : String
  pub pack_mode : String
  pub chunk_size : ℕ
  pub chunk_count : ℕ
  pub whole_sha256 : String
  pub total_residual_count : ℕ
  pub chunks : List Chunk
  pub chunk_tournament_enabled : Bool
  pub candidate_chunk_sizes : List ℕ
  pub selected_chunk_size : ℕ
  pub selected_total_residual_count : ℕ
  pub selected_residual_density : ℕ
  pub chunk_tournament_results : List TournamentResult
  pub transform_tournament_enabled : Bool
  pub candidate_transforms : List (Option Transform)
  pub selected_transform_counts : Counts

abbrev pub bog_format : String
bog_format = "BOG-2.0"

abbrev pub bogbin_format : String
bogbin_format = "BOGBIN-2.0"

-- CANDIDATE_CHUNK_SIZES
abbrev pub sizes : List ℕ
sizes = 16 ∷ 32 ∷ 64 ∷ 128 ∷ []

-- `f"payload_chunk_{index:04d}"`
unfoldable pub chunk_name : ℕ → String
unfolding four_digits
chunk_name index = append "payload_chunk_" (four_digits index)

-- `ch in "0123456789abcdef"`
unfoldable pub is_hex_digit : Char → Bool
is_hex_digit c = leb 48 (code c) && leb (code c) 57 || leb 97 (code c) && leb (code c) 102

unfoldable pub all_hex : String → Bool
unfolding is_hex_digit
all_hex String.[] = true
all_hex (String.◌∷◌ c s) = is_hex_digit c && all_hex s

-- `_is_sha256` of a text
unfoldable pub is_sha256 : String → Bool
unfolding all_hex
is_sha256 value = count value == 64 && all_hex value
