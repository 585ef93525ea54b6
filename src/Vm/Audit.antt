-- ===== src/Vm/Audit.antt =====
-- bogvm/vm.py: the accepted claims and data blocks against the receipt ledger.
pub mod Steps
use bogbin.Common.{
  ℕ, ◌==◌, Bool, true, false, ◌||◌, Option, none, some, List, [], ◌∷◌, ◌++◌, String, ◌≡◌, refl,
  arith, ◌⊎◌, inl, inr, if◌then◌else◌, Bool-cases, ap, ◌∙◌, sym, str_eq, eq_iff, subst, ==_iff,
}
use bogbin.Common.Int.{ℤ}
use bogbin.Common.Dict
use bogbin.Common.Dict.{Dict}
use bogbin.Vm.State.{
  VmState, Manifest, Claim, DataBlock, Status, verified, rejected, abstained, Event, member,
  add_sorted,
}
use bogbin.Vm.Members.{mem-add_sorted}

-- An event stands in the ledger.
abbrev pub Logged : Event → List (ℤ × Event) → Type 0
Logged e [] = ⊥
Logged e ((pc, f) ∷ l) = (f ≡ e) ⊎ Logged e l

-- A claim of the manifest that a logged VERIFY has verified.
abbrev pub IsClaimVerified : Manifest → List (ℤ × Event) → ℕ → Type 0
IsClaimVerified m ledger id =
    (name : String) × (Dict.get id m.claims ≡ some name)
    × Logged (Event.verify name verified) ledger

module _ (sha256 : List ℕ → String) where
  -- A data block of the manifest that a logged VERIFY_HASH has verified: its bytes had then the hash
  -- that a constant of the manifest gives.
  abbrev pub IsHashVerified : Manifest → List (ℤ × Event) → ℕ → Type 0
  IsHashVerified m ledger id =
      (name : String) × (bytes : List ℕ) × (constant : ℕ) × (Dict.get id m.data_blocks ≡ some name)
      × (Dict.get constant m.constants ≡ some (sha256 bytes))
      × Logged (Event.verify_hash name (sha256 bytes) (sha256 bytes) verified) ledger

  -- The tables of the state against its ledger.
  pub record Audit (m : Manifest) (claims : Dict Claim) (results : Dict Status) (accepted : List ℕ)
      (blocks : Dict DataBlock) (hashes : Dict Status) (accepted_data : List ℕ)
      (ledger : List (ℤ × Event)) : Type 0 where
    pub claims_named :
        (id : ℕ) (c : Claim) → Dict.get id claims ≡ some c → Dict.get id m.claims ≡ some c.name
    pub results_logged :
        (id : ℕ) → Dict.get id results ≡ some verified → IsClaimVerified m ledger id
    pub accepted_logged : (id : ℕ) → member id accepted ≡ true → IsClaimVerified m ledger id
    pub blocks_named :
        (id : ℕ) (b : DataBlock)
        → Dict.get id blocks ≡ some b
        → Dict.get id m.data_blocks ≡ some b.name
    pub hashes_logged : (id : ℕ) → Dict.get id hashes ≡ some verified → IsHashVerified m ledger id
    pub accepted_data_logged :
        (id : ℕ) → member id accepted_data ≡ true → IsHashVerified m ledger id

  abbrev pub IsAudited : VmState → Type 0
  IsAudited s =
      Audit s.manifest s.claim_table s.verifier_results s.accepted_claims s.data_blocks
        s.data_hash_results s.accepted_data_blocks s.receipt_ledger

Logged-append :
    (e : Event) (x : ℤ × Event) (l : List (ℤ × Event)) → Logged e l → Logged e (l ++ (x ∷ []))
Logged-append e x [] h = absurd h
Logged-append e x ((pc, f) ∷ l) (inl h) = inl h
Logged-append e x ((pc, f) ∷ l) (inr h) = inr (Logged-append e x l h)

Logged-last : (e : Event) (pc : ℤ) (l : List (ℤ × Event)) → Logged e (l ++ ((pc, e) ∷ []))
Logged-last e pc [] = inl refl
Logged-last e pc (x ∷ l) = inr (Logged-last e pc l)

module _ (sha256 : List ℕ → String) where
  module _ {m : Manifest} {claims : Dict Claim} {results : Dict Status} {accepted : List ℕ}
      {blocks : Dict DataBlock} {hashes : Dict Status} {accepted_data : List ℕ}
      {ledger : List (ℤ × Event)}
      (a : Audit sha256 m claims results accepted blocks hashes accepted_data ledger) where
    pub Audit-log :
        (x : ℤ × Event)
        → Audit sha256 m claims results accepted blocks hashes accepted_data (ledger ++ (x ∷ []))
    Audit-log x = record {
      claims_named = a.claims_named;
      results_logged =
          λ id h. let (name, n, l) = a.results_logged id h in (name, n, Logged-append _ x ledger l);
      accepted_logged = λ id h.
          let (name, n, l) = a.accepted_logged id h in (name, n, Logged-append _ x ledger l);
      blocks_named = a.blocks_named;
      hashes_logged = λ id h.
          let (name, b, c, n, k, l) = a.hashes_logged id h in
          (name, b, c, n, k, Logged-append _ x ledger l);
      accepted_data_logged = λ id h.
          let (name, b, c, n, k, l) = a.accepted_data_logged id h in
          (name, b, c, n, k, Logged-append _ x ledger l);
    }

    -- CREATE_CLAIM
    pub Audit-claim :
        (id : ℕ) (c : Claim)
        → Dict.get id m.claims ≡ some c.name
        → Audit sha256 m (Dict.put id c claims) results accepted blocks hashes accepted_data ledger
    Audit-claim id c h = record {
      claims_named = λ k d e. ground (arith, Dict.get-put id k c claims, a.claims_named k d);
      results_logged = a.results_logged;
      accepted_logged = a.accepted_logged;
      blocks_named = a.blocks_named;
      hashes_logged = a.hashes_logged;
      accepted_data_logged = a.accepted_data_logged;
    }

    -- VERIFY
    pub Audit-verify :
        (id : ℕ) (c : Claim) (pc : ℤ) (status : Status)
        → Dict.get id claims ≡ some c
        → Audit sha256 m claims
            (Dict.put id status results)
            accepted
            blocks
            hashes
            accepted_data
            (ledger ++ ((pc, Event.verify c.name status) ∷ []))
    Audit-verify id c pc status h = record {
      claims_named = a.claims_named;
      results_logged = λ k e. elim (Bool-cases (id == k)) [
        | inl same ↦
            fresh k ((==_iff id k).0 same) (ground (arith, Dict.get-put id k status results))
        | inr other ↦
            let (name, n, l) =
              a.results_logged k (ground (arith, Dict.get-put id k status results)) in
            (name, n, Logged-append _ _ ledger l)
      ];
      accepted_logged =
          λ k e. let (name, n, l) = a.accepted_logged k e in (name, n, Logged-append _ _ ledger l);
      blocks_named = a.blocks_named;
      hashes_logged = (Audit-log _).hashes_logged;
      accepted_data_logged = (Audit-log _).accepted_data_logged;
    }
      where
        fresh :
            (k : ℕ)
            → id ≡ k
            → status ≡ verified
            → IsClaimVerified m (ledger ++ ((pc, Event.verify c.name status) ∷ [])) k
        fresh k p st = (
          c.name,
          subst (λ j. Dict.get j m.claims ≡ some c.name) p (a.claims_named id c h),
          subst
              (λ t.
                Logged (Event.verify c.name verified)
                  (ledger ++ ((pc, Event.verify c.name t) ∷ [])))
              (sym st) (Logged-last (Event.verify c.name verified) pc ledger),
        )

    -- VERIFY_HASH
    pub Audit-verify_hash :
        (id : ℕ) (b : DataBlock) (pc : ℤ) (constant : ℕ) (expected : String) (result : Status)
        → Dict.get id blocks ≡ some b
        → Dict.get constant m.constants ≡ some expected
        → result ≡ (if str_eq (sha256 b.bytes) expected then verified else rejected)
        → Audit sha256 m claims results accepted blocks
            (Dict.put id result hashes)
            accepted_data
            (ledger ++ ((pc, Event.verify_hash b.name expected (sha256 b.bytes) result) ∷ []))
    Audit-verify_hash id b pc constant expected result h g r = record {
      claims_named = a.claims_named;
      results_logged = (Audit-log _).results_logged;
      accepted_logged = (Audit-log _).accepted_logged;
      blocks_named = a.blocks_named;
      hashes_logged = λ k e. elim (Bool-cases (id == k)) [
        | inl same ↦
            fresh k ((==_iff id k).0 same) (ground (arith, Dict.get-put id k result hashes))
              (matched (ground (arith, Dict.get-put id k result hashes)))
        | inr other ↦
            let (name, bytes, c, n, q, l) =
              a.hashes_logged k (ground (arith, Dict.get-put id k result hashes)) in
            (name, bytes, c, n, q, Logged-append _ _ ledger l)
      ];
      accepted_data_logged = (Audit-log _).accepted_data_logged;
    }
      where
        matched : result ≡ verified → expected ≡ sha256 b.bytes
        matched e = ground (arith, eq_iff (sha256 b.bytes) expected)

        fresh :
            (k : ℕ)
            → id ≡ k
            → result ≡ verified
            → expected ≡ sha256 b.bytes
            → IsHashVerified sha256 m
                (ledger ++ ((pc, Event.verify_hash b.name expected (sha256 b.bytes) result) ∷ []))
                k
        fresh k p st q = (
          b.name,
          b.bytes,
          constant,
          subst (λ j. Dict.get j m.data_blocks ≡ some b.name) p (a.blocks_named id b h),
          g ∙ ap some q,
          subst
              (λ t.
                Logged (Event.verify_hash b.name (sha256 b.bytes) (sha256 b.bytes) verified)
                  (ledger ++ ((pc, Event.verify_hash b.name expected (sha256 b.bytes) t) ∷ [])))
              (sym st)
              (subst
                (λ x.
                  Logged (Event.verify_hash b.name (sha256 b.bytes) (sha256 b.bytes) verified)
                    (ledger ++ ((pc, Event.verify_hash b.name x (sha256 b.bytes) verified) ∷ [])))
                (sym q) (Logged-last _ pc ledger)),
        )

    -- ACCEPT
    pub Audit-accept :
        (id : ℕ)
        → Dict.get id results ≡ some verified
        → Audit sha256 m claims results (add_sorted id accepted) blocks hashes accepted_data ledger
    Audit-accept id h = record {
      claims_named = a.claims_named;
      results_logged = a.results_logged;
      accepted_logged = λ k e. elim (mem-add_sorted k id accepted e) [
        | inl same ↦ subst (IsClaimVerified m ledger) same (a.results_logged id h)
        | inr old ↦ a.accepted_logged k old
      ];
      blocks_named = a.blocks_named;
      hashes_logged = a.hashes_logged;
      accepted_data_logged = a.accepted_data_logged;
    }

    -- A block is stored under the name that the manifest gives.
    pub Audit-block :
        (id : ℕ) (b : DataBlock)
        → Dict.get id m.data_blocks ≡ some b.name
        → Audit sha256 m claims results accepted (Dict.put id b blocks) hashes accepted_data ledger
    Audit-block id b h = record {
      claims_named = a.claims_named;
      results_logged = a.results_logged;
      accepted_logged = a.accepted_logged;
      blocks_named = λ k d e. ground (arith, Dict.get-put id k b blocks, a.blocks_named k d);
      hashes_logged = a.hashes_logged;
      accepted_data_logged = a.accepted_data_logged;
    }

    -- ACCEPT_DATA
    pub Audit-accept_data :
        (id : ℕ)
        → Dict.get id hashes ≡ some verified
        → Audit sha256 m claims results accepted blocks hashes (add_sorted id accepted_data) ledger
    Audit-accept_data id h = record {
      claims_named = a.claims_named;
      results_logged = a.results_logged;
      accepted_logged = a.accepted_logged;
      blocks_named = a.blocks_named;
      hashes_logged = a.hashes_logged;
      accepted_data_logged = λ k e. elim (mem-add_sorted k id accepted_data e) [
        | inl same ↦ subst (IsHashVerified sha256 m ledger) same (a.hashes_logged id h)
        | inr old ↦ a.accepted_data_logged k old
      ];
    }
