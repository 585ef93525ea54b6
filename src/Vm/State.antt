-- ===== src/Vm/State.antt =====
-- bogvm/vm.py: the state of BOGVM, the events of its receipt ledger, and the exceptions.
use bogbin.Common.{
  ℕ, Bool, false, ◌||◌, Option, none, List, [], ◌∷◌, ◌++◌, String, ◌⊎◌, leb, ◌==◌, if◌then◌else◌,
}
use bogbin.Common.Int.{ℤ, pos}
use bogbin.Common.Dict.{Dict}
use bogbin.Common.Sorting.{sort}
use bogbin.Instruction.{EdgeType}
use bogbin.Bases.{Basis}
use bogbin.Residual.{Residual}

-- What the program reads of the manifest: names by id. JSON has the ids as decimal text.
pub record Manifest : Type 0 where
  pub nodes : Dict String
  pub claims : Dict String
  pub data_blocks : Dict String
  pub constants : Dict String

-- The VMErrors, one constructor for each text.
pub data VmError : Type 0 where
  unknown_opcode : ℕ → ℕ → VmError
  missing_node_symbol missing_claim_symbol missing_basis_constant : ℕ → VmError
  missing_data_block missing_hash_constant : ℕ → VmError
  create_edge_unknown_node activate_unknown_node activation_range energy_limit : VmError
  decay_range byte_range delta_range residual_byte_range no_halt : VmError
  unknown_edge_type unknown_propagation_type : ℕ → VmError
  accept_without_verify accept_data_unverified reject_data_unfailed : String → VmError
  unsupported_basis : String → VmError
  unsupported_synth_basis : Option Basis → VmError
  synthesize_missing verify_hash_missing accept_data_missing reject_data_missing : ℕ → VmError
  store_residual_missing apply_residual_missing : ℕ → VmError
  residual_out_of_range residual_out_of_bytes : ℕ → String → VmError

-- The values of `edge_table`, `claim_table`, `pressure_current` and `data_blocks`. A node is its name.
pub record Edge : Type 0 where
  pub source : ℕ
  pub target : ℕ
  pub type : EdgeType
  pub weight : ℕ

pub record Claim : Type 0 where
  pub name : String
  pub source : ℕ
  pub target : ℕ

pub record Pressure : Type 0 where
  pub support_pressure : ℕ
  pub conflict_pressure : ℕ
  pub net_pressure : ℤ

pub record DataBlock : Type 0 where
  pub name : String
  pub basis : Option Basis
  pub byte : ℕ
  pub delta : ℕ
  pub length : ℕ
  pub bytes : List ℕ
  pub residuals : List Residual

-- The texts of `verifier_results` and `data_hash_results`.
pub data Status : Type 0 where
  verified rejected abstained : Status

-- One constructor for each name that is logged, with the details beside it.
pub data Event : Type 0 where
  noop halt log_receipt emit_receipt auto_receipt : Event
  create_node : ℕ → String → Event
  create_edge : ℕ → String → String → EdgeType → Event
  create_claim : ℕ → String → String → String → Event
  activate : String → ℕ → Event
  propagate : String ⊎ ℕ → EdgeType → ℕ → ℕ → List String → Event
  decay : ℕ → Event
  interfere : String → ℕ → ℕ → ℤ → ℕ → Event
  compute_tension : String → ℕ → Event
  verify : String → Status → Event
  accept reject quarantine : String → Event
  repair_contradiction : String → ℕ → ℕ → Event
  declare_basis : Basis → Event
  load_coefficients : String → ℕ → ℕ → ℕ → Event
  synthesize : String → ℕ → Event
  verify_hash : String → String → String → Status → Event
  accept_data reject_data : String → Event
  blocked_execution : VmError → Event
  store_residual : String → ℕ → ℕ → Event
  apply_residual : String → ℕ → ℕ → Event

-- What a program can raise: a VMError, or the KeyError of `table[key]`.
pub data Fault : Type 0 where
  vm_error : VmError → Fault
  key_error : ℕ → Fault

pub record VmState : Type 0 where
  pub manifest : Manifest
  pub node_table : Dict String
  pub edge_table : Dict Edge
  pub claim_table : Dict Claim
  pub adjacency_out : Dict (List ℕ)
  pub adjacency_in : Dict (List ℕ)
  pub activation_current : Dict ℕ
  pub tension_current : Dict ℕ
  pub pressure_current : Dict Pressure
  pub verifier_results : Dict Status
  pub accepted_claims : List ℕ
  pub rejected_claims : List ℕ
  pub quarantined_claims : List ℕ
  pub data_blocks : Dict DataBlock
  pub active_basis : Option Basis
  pub data_hash_results : Dict Status
  pub accepted_data_blocks : List ℕ
  pub rejected_data_blocks : List ℕ
  pub receipt_ledger : List (ℤ × Event)
  pub receipt_emitted : Bool

-- `BOGVM.__init__`
abbrev pub initial : Manifest → VmState
initial manifest = record {
  manifest = manifest;
  node_table = [];
  edge_table = [];
  claim_table = [];
  adjacency_out = [];
  adjacency_in = [];
  activation_current = [];
  tension_current = [];
  pressure_current = [];
  verifier_results = [];
  accepted_claims = [];
  rejected_claims = [];
  quarantined_claims = [];
  data_blocks = [];
  active_basis = none;
  data_hash_results = [];
  accepted_data_blocks = [];
  rejected_data_blocks = [];
  receipt_ledger = [];
  receipt_emitted = false;
}

-- One round of the loop goes on, ends by HALT, or raises. The state that was written stays written.
pub data Outcome : Type 0 where
  next : VmState → Outcome
  halted : VmState → Outcome
  raised : Fault → VmState → Outcome

-- `self.state.log(pc, opcode, **details)`
abbrev pub log : ℕ → Event → VmState → VmState
log pc event s = record s { receipt_ledger = s.receipt_ledger ++ ((pos pc, event) ∷ []) }

-- `x in list`
unfoldable pub member : ℕ → List ℕ → Bool
member x [] = false
member x (y ∷ l) = (y == x) || member x l

-- `if x not in list: list.append(x); list.sort()`
unfoldable pub add_sorted : ℕ → List ℕ → List ℕ
unfolding sort member
add_sorted x l = if member x l then l else sort leb (l ++ (x ∷ []))
