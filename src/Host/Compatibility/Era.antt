-- ===== src/Host/Compatibility/Era.antt =====
-- internal/host/compatibility.go: what the era that is detected rests on.
use mcp_from_scratch.Base.Decimal.{ℤ, pos, negsuc}
use mcp_from_scratch.Protocol.Errors.{Message}
use mcp_from_scratch.Host.Client.{RpcFailure, Answer, Client, Called}
use mcp_from_scratch.Host.Discovery.{
  valid_discovery_envelope, valid_rpc_error_envelope, valid_modern_discovery,
  valid_legacy_discovery, first_common, common_in, advertised, advertised_common_version,
}
use mcp_from_scratch.Host.Discovery.Meaning.{
  Announces, Dates, valid_modern_discovery-Announces, valid_legacy_discovery-Dates,
}
use mcp_from_scratch.Host.Compatibility.{
  modern, legacy, CompatibilityResult, Detected, call_discovery, initialized_era, legacy_with,
  select_legacy_era, after_retry, retry_with, on_failure, failed_call, answered_call, first_call,
  detect_server_era,
}
use mcp_from_scratch.Base.{
  ℕ, String, ◌≡◌, refl, ap, subst, ◌∙◌, ◌⊎◌, inl, inr, true, Option, none, some, List, [], ◌∷◌,
  arith, eq_iff, eq_refl, eqb, Bool-cases, member, ok, ok_injective,
}

module _ {W : Type 0} (client : Client W) (initialize_legacy : Option (W → Option Message × W))
    (supported : List String) where
  -- The reasons for either era.
  abbrev Modern : CompatibilityResult → Type 0
  Modern r =
      (r.era ≡ modern)
      × (member r.protocol_version supported ≡ true)
      × (r.discovery.error ≡ none)
      × Announces r.discovery.result r.protocol_version

  abbrev Old : Answer → Type 0
  Old answer =
      Dates answer.result
      ⊎ ((failure : RpcFailure) × (answer.error ≡ some failure) × (failure.code ≡ negsuc 32600))

  abbrev Legacy : CompatibilityResult → Type 0
  Legacy r =
      (r.era ≡ legacy)
      × (r.protocol_version ≡ "2025-06-18")
      × Old r.discovery
      × ((initialize : W → Option Message × W) × (w : W) × (initialize_legacy ≡ some initialize)
          × ((initialize w).0 ≡ none))

  abbrev pub Justified : CompatibilityResult → Type 0
  Justified r = Modern r ⊎ Legacy r

  abbrev Sound : Detected × W → Type 0
  Sound t = (r : CompatibilityResult) → t.0 ≡ ok r → Justified r

  initialized-Sound :
      (discovery : Answer) (initialize : W → Option Message × W) (w : W) (o : Option Message)
      (w' : W)
      → initialize_legacy ≡ some initialize
      → (initialize w).0 ≡ o
      → Old discovery
      → Sound (initialized_era client initialize_legacy discovery (o, w'))
  initialized-Sound discovery initialize w (some e) w' given ran old r h = cc
  initialized-Sound discovery initialize w none w' given ran old r h =
      subst Justified (ok_injective h) (inr (refl, refl, old, (initialize, w, given, ran)))

  legacy_with-Sound :
      (o : Option (W → Option Message × W)) (discovery : Answer) (w : W)
      → initialize_legacy ≡ o
      → Old discovery
      → Sound (legacy_with client initialize_legacy o discovery w)
  legacy_with-Sound none discovery w given old = λ r h. cc
  legacy_with-Sound (some initialize) discovery w given old =
      initialized-Sound discovery initialize w (initialize w).0 (initialize w).1 given refl old

  select_legacy-Sound :
      (discovery : Answer) (w : W)
      → Old discovery
      → Sound (select_legacy_era client initialize_legacy discovery w)
  unfolding select_legacy_era
  select_legacy-Sound discovery w = legacy_with-Sound initialize_legacy discovery w refl

  envelope_no_error :
      (answer : Answer) (id : ℕ) → valid_discovery_envelope answer id ≡ true → answer.error ≡ none
  unfolding valid_discovery_envelope
  envelope_no_error answer id h = ground arith

  modern-Sound :
      (answer : Answer) (id : ℕ) (version : String) (w : W)
      → member version supported ≡ true
      → valid_discovery_envelope answer id ≡ true
      → valid_modern_discovery answer.result version ≡ true
      → Sound (ok (record { era = modern; protocol_version = version; discovery = answer }), w)
  modern-Sound answer id version w among envelope announced r h = subst Justified (ok_injective h) (
      inl (
        refl,
        among,
        envelope_no_error answer id envelope,
        valid_modern_discovery-Announces answer.result version announced,
      ))

  after_retry-Sound :
      (version : String) (t : Called × W)
      → member version supported ≡ true
      → Sound (after_retry client initialize_legacy version t)
  after_retry-Sound version ((answer, some e), w) among = λ r h. cc
  after_retry-Sound version ((answer, none), w) among =
      elim (Bool-cases (valid_discovery_envelope answer 2)) [
        | inr bad ↦ rw bad (λ r h. cc)
        | inl envelope ↦
            rw envelope (elim (Bool-cases (valid_modern_discovery answer.result version)) [
              | inr bad ↦ rw bad (λ r h. cc)
              | inl announced ↦
                  rw announced (modern-Sound answer 2 version w among envelope announced)
            ])
      ]

  first_common-member :
      (requested : String) (versions vs : List String) (v : String)
      → first_common requested versions vs ≡ some v
      → member v vs ≡ true
  first_common-member requested versions [] v h = cc
  first_common-member requested versions (x ∷ vs) v h =
      ground (arith, first_common-member requested versions vs v, eq_iff x v)

  common_in-member :
      (o : Option (List String)) (requested v : String)
      → common_in o supported requested ≡ some v
      → member v supported ≡ true
  common_in-member none requested v h = cc
  common_in-member (some versions) requested v h =
      first_common-member requested versions supported v h

  retry_with-Sound :
      (o : Option String) (e : Message) (w : W)
      → ((v : String) → o ≡ some v → member v supported ≡ true)
      → Sound (retry_with client initialize_legacy o e w)
  retry_with-Sound none e w k = λ r h. cc
  retry_with-Sound (some v) e w k =
      after_retry-Sound v (call_discovery client initialize_legacy 2 v w) (k v refl)

  on_failure-Sound :
      (requested : String) (answer : Answer) (failure : RpcFailure) (code : ℤ) (e : Message) (w : W)
      → failure.code ≡ code
      → answer.error ≡ some failure
      → Sound (on_failure client initialize_legacy supported requested answer failure e w)
  unfolding advertised_common_version
  on_failure-Sound requested answer failure (pos n) e w is_code given = rw is_code (λ r h. cc)
  on_failure-Sound requested answer failure (negsuc n) e w is_code given =
      rw is_code (elim (Bool-cases (eqb n 32600)) [
        | inl unknown ↦ rw unknown (
            select_legacy-Sound answer w (inr (failure, given, is_code ∙ ap negsuc (ground arith))))
        | inr known ↦ rw known (elim (Bool-cases (eqb n 32021)) [
          | inr other ↦ rw other (λ r h. cc)
          | inl version ↦ rw version (
              retry_with-Sound _ e w
                (λ v found. common_in-member (advertised failure.detail) requested v found))
        ])
      ])

  failed_call-Sound :
      (requested : String) (answer : Answer) (o : Option RpcFailure) (e : Message) (w : W)
      → answer.error ≡ o
      → Sound (failed_call client initialize_legacy supported requested answer o e w)
  failed_call-Sound requested answer none e w given = λ r h. cc
  failed_call-Sound requested answer (some failure) e w given =
      elim (Bool-cases (valid_rpc_error_envelope answer 1)) [
        | inr bad ↦ rw bad (λ r h. cc)
        | inl envelope ↦
            rw envelope (on_failure-Sound requested answer failure failure.code e w refl given)
      ]

  answered_call-Sound :
      (requested : String) (answer : Answer) (w : W)
      → member requested supported ≡ true
      → Sound (answered_call client initialize_legacy requested answer w)
  answered_call-Sound requested answer w among =
      elim (Bool-cases (valid_discovery_envelope answer 1)) [
        | inr bad ↦ rw bad (λ r h. cc)
        | inl envelope ↦
            rw envelope (elim (Bool-cases (valid_modern_discovery answer.result requested)) [
              | inl announced ↦
                  rw announced (modern-Sound answer 1 requested w among envelope announced)
              | inr other ↦ rw other (elim (Bool-cases (valid_legacy_discovery answer.result)) [
                | inl old ↦ rw old (
                    select_legacy-Sound answer w
                      (inl (valid_legacy_discovery-Dates answer.result old)))
                | inr neither ↦ rw neither (λ r h. cc)
              ])
            ])
      ]

  first_call-Sound :
      (requested : String) (t : Called × W)
      → member requested supported ≡ true
      → Sound (first_call client initialize_legacy supported requested t)
  first_call-Sound requested ((answer, none), w) among =
      answered_call-Sound requested answer w among
  first_call-Sound requested ((answer, some e), w) among =
      failed_call-Sound requested answer answer.error e w refl

module _ {W : Type 0} (client : Client W)
    (initialize_legacy : Option (W → Option Message × W)) where
  -- An era is detected only for a reason. For the modern one, the answer has no error and is a
  -- complete result that lists a version that the client supports, has capabilities, and names in its
  -- metadata a server with a version. For the legacy one, the answer has a protocol version that is a
  -- date of at most 2025-11-25, capabilities, and a server with a name and a version, or it is the
  -- error -32601, method not found; and the configured initialization ran without an error.
  pub detect_server_era-Justified :
      (supported : List String) (w : W) (r : CompatibilityResult)
      → (detect_server_era client initialize_legacy supported w).0 ≡ ok r
      → Justified client initialize_legacy supported r
  unfolding detect_server_era
  detect_server_era-Justified [] w r h = cc
  detect_server_era-Justified (requested ∷ others) w r h =
      first_call-Sound client initialize_legacy (requested ∷ others) requested
        (call_discovery client initialize_legacy 1 requested w) (ground (arith, eq_refl requested))
        r h
