-- ===== src/Confirmation/RoundTrip.antt =====
-- The state of confirm_preview comes back valid, and nothing completes without it.
use Prim.Native.String.{◌++◌ as append}
use mcp_from_scratch.Base.Base64.{encode, decode, decode-encode, encode-ne-nil, Bytes}
use mcp_from_scratch.Environment.{Environment}
use mcp_from_scratch.Envelope.{ToolResult}
use mcp_from_scratch.Tools.{ToolInvocation}
use mcp_from_scratch.Confirmation.{
  confirm_preview_input_key, supports_form_elicitation, answer, decode_answer, answered,
  text_result, same_bytes, no_responses, confirm_preview_state_digest, confirm_preview_state,
  equals_digest, valid_confirm_preview_state, new_confirm_preview_input_required, respond,
  confirm_decoded, decode_preview, confirm_preview_call,
}
use mcp_from_scratch.Base.{
  ℕ, String, ◌≡◌, refl, ap, ◌∙◌, ◌≢◌, inl, inr, true, false, some, List, [], ◌∷◌, arith, ◌==◌,
  eq_iff, Option-cases, Map, lookup, ok,
}
use mcp_from_scratch.Json.{Json}

same_bytes_refl : (s : List ℕ) → same_bytes s s ≡ true
unfolding same_bytes
same_bytes_refl [] = refl
same_bytes_refl (a ∷ s) = ground (arith, same_bytes_refl s)

same_bytes-eq : (s t : List ℕ) → same_bytes s t ≡ true → s ≡ t
unfolding same_bytes
same_bytes-eq [] [] h = refl
same_bytes-eq [] (b ∷ t) h = absurd (cc)
same_bytes-eq (a ∷ s) [] h = absurd (cc)
same_bytes-eq (a ∷ s) (b ∷ t) h = ground (arith, same_bytes-eq s t)

module _ (env : Environment) (preview : String) where
  valid_confirm_preview_state_self :
      Bytes (confirm_preview_state_digest env preview)
      → valid_confirm_preview_state env preview (confirm_preview_state env preview) ≡ true
  unfolding valid_confirm_preview_state confirm_preview_state equals_digest
  valid_confirm_preview_state_self h =
      rw (decode-encode (confirm_preview_state_digest env preview) h)
        (same_bytes_refl (confirm_preview_state_digest env preview))

  -- A state is valid only if it is an encoding of the digest of this very preview.
  valid_confirm_preview_state-digest :
      (state : String)
      → valid_confirm_preview_state env preview state ≡ true
      → decode state ≡ some (confirm_preview_state_digest env preview)
  unfolding valid_confirm_preview_state equals_digest
  valid_confirm_preview_state-digest state h = elim (Option-cases (decode state)) [
    | inl e ↦ absurd (ground (arith, e))
    | inr (bytes, e) ↦ e ∙ ap some (same_bytes-eq bytes _ (rw (e, equals_digest) at h))
  ]

  state-ne-nil : (d : List ℕ) → Bytes d → d ≢ [] → (encode d == "") ≡ false
  state-ne-nil [] h given = absurd (given refl)
  state-ne-nil (b ∷ bytes) h given =
      ground (arith, eq_iff (encode (b ∷ bytes)) "", encode-ne-nil b bytes h)

  state_given :
      Bytes (confirm_preview_state_digest env preview)
      → confirm_preview_state_digest env preview ≢ []
      → (confirm_preview_state env preview == "") ≡ false
  unfolding confirm_preview_state
  state_given = state-ne-nil (confirm_preview_state_digest env preview)

  has_responses : (responses : Map Json) → responses ≢ [] → no_responses responses ≡ false
  has_responses [] h = absurd (h refl)
  has_responses (r ∷ rs) h = refl

  -- For a client that supports form elicitation, and a digest that is a non-empty string of bytes: a
  -- first call with a preview, without responses and state, asks for the confirmation, and the same
  -- call with the state that it handed out and an acceptance completes with the confirmed preview.
  pub confirm_round_trip :
      (invocation : ToolInvocation) (raw : Json)
      → supports_form_elicitation invocation.client_capabilities ≡ true
      → decode_preview env invocation.arguments ≡ some preview
      → invocation.input_responses ≡ []
      → invocation.request_state ≡ ""
      → Bytes (confirm_preview_state_digest env preview)
      → confirm_preview_state_digest env preview ≢ []
      → decode_answer raw ≡ some (answer "accept" true)
      → let asked = new_confirm_preview_input_required env preview in
        (confirm_preview_call env invocation ≡ ok asked)
        × (confirm_preview_call env (record invocation {
          request_state = asked.request_state;
          input_responses = (confirm_preview_input_key, raw) ∷ [];
        })
            ≡ ok (text_result (append "confirmed preview: " preview)))
  unfolding confirm_preview_call confirm_decoded respond answered lookup
      new_confirm_preview_input_required
  confirm_round_trip invocation raw supported decoded first fresh bytes given accepts = (
    ground (arith, eq_iff invocation.request_state ""),
    ground (arith, valid_confirm_preview_state_self bytes, state_given bytes given),
  )

  -- A call with a preview and some responses returns a result only if its state decodes to the digest
  -- of that very preview.
  pub confirm_needs_state :
      (invocation : ToolInvocation) (result : ToolResult)
      → decode_preview env invocation.arguments ≡ some preview
      → invocation.input_responses ≢ []
      → confirm_preview_call env invocation ≡ ok result
      → decode invocation.request_state ≡ some (confirm_preview_state_digest env preview)
  unfolding confirm_preview_call confirm_decoded
  confirm_needs_state invocation result decoded responses h =
      valid_confirm_preview_state-digest invocation.request_state
        (ground (arith, has_responses invocation.input_responses responses))
