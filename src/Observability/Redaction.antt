-- ===== src/Observability/Redaction.antt =====
-- redactJSONValue of internal/mcpserver/observability.go: a logged value tells nothing of its secrets.
use mcp_from_scratch.Observability.{
  sensitive_log_key, redact_json_value, redact_items, redact_fields,
}
use mcp_from_scratch.Base.{String, ◌≡◌, refl, ap, true, false}
use mcp_from_scratch.Json.{
  Json, null, bool, num, str, arr, obj, Items, nil, cons, Fields, end, field,
}

-- Two values that differ at most in what stands under sensitive keys.
mutual
  pub data Alike : Json → Json → Type 0 where
    same : (v : Json) → Alike v v
    lists : {vs ws : Items} → AlikeItems vs ws → Alike (arr vs) (arr ws)
    objects : {fs gs : Fields} → AlikeFields fs gs → Alike (obj fs) (obj gs)

  pub data AlikeItems : Items → Items → Type 0 where
    none_left : AlikeItems nil nil
    item :
        {v w : Json} {vs ws : Items}
        → Alike v w
        → AlikeItems vs ws
        → AlikeItems (cons v vs) (cons w ws)

  pub data AlikeFields : Fields → Fields → Type 0 where
    no_fields : AlikeFields end end
    shown :
        {k : String} {v w : Json} {fs gs : Fields}
        → Alike v w
        → AlikeFields fs gs
        → AlikeFields (field k v fs) (field k w gs)
    hidden :
        {k : String} {v w : Json} {fs gs : Fields}
        → sensitive_log_key k ≡ true
        → AlikeFields fs gs
        → AlikeFields (field k v fs) (field k w gs)

mutual
  unfolding redact_json_value redact_items redact_fields

  Alike-value : {v w : Json} → Alike v w → redact_json_value v ≡ redact_json_value w
  Alike-value (same v) = refl
  Alike-value (lists a) = ap arr (Alike-items a)
  Alike-value (objects a) = ap obj (Alike-fields a)

  Alike-items : {vs ws : Items} → AlikeItems vs ws → redact_items vs ≡ redact_items ws
  Alike-items none_left = refl
  Alike-items (item a b) = cc (Alike-value a, Alike-items b)

  Alike-fields : {fs gs : Fields} → AlikeFields fs gs → redact_fields fs ≡ redact_fields gs
  Alike-fields no_fields = refl
  Alike-fields (shown {k} a b) = rw (Alike-value a, Alike-fields b) refl
  Alike-fields (hidden {k} h b) = rw (h, Alike-fields b) refl

-- No key of a value is sensitive.
unfoldable mutual
  pub Open : Json → Type 0
  Open null = Unit {0}
  Open (bool b) = Unit {0}
  Open (num n) = Unit {0}
  Open (str s) = Unit {0}
  Open (arr vs) = OpenItems vs
  Open (obj fs) = OpenFields fs

  pub OpenItems : Items → Type 0
  OpenItems nil = Unit {0}
  OpenItems (cons v vs) = Open v × OpenItems vs

  pub OpenFields : Fields → Type 0
  OpenFields end = Unit {0}
  OpenFields (field k v fs) = (sensitive_log_key k ≡ false) × Open v × OpenFields fs

mutual
  unfolding redact_json_value redact_items redact_fields Open OpenItems OpenFields

  Open-value : (v : Json) → Open v → redact_json_value v ≡ v
  Open-value null h = refl
  Open-value (bool b) h = refl
  Open-value (num n) h = refl
  Open-value (str s) h = refl
  Open-value (arr vs) h = ap arr (Open-items vs h)
  Open-value (obj fs) h = ap obj (Open-fields fs h)

  Open-items : (vs : Items) → OpenItems vs → redact_items vs ≡ vs
  Open-items nil h = refl
  Open-items (cons v vs) h = cc (Open-value v h.0, Open-items vs h.1)

  Open-fields : (fs : Fields) → OpenFields fs → redact_fields fs ≡ fs
  Open-fields end h = refl
  Open-fields (field k v fs) h = rw (h.0, Open-value v h.1, Open-fields fs h.2) refl

-- Values that differ only under sensitive keys, at any depth, are logged as the same value: a log
-- message tells nothing of what stands there. A value without sensitive keys is logged as it is.
pub redact_json_value-Alike :
    (v w plain : Json)
    → Alike v w
    → Open plain
    → (redact_json_value v ≡ redact_json_value w) × (redact_json_value plain ≡ plain)
redact_json_value-Alike v w plain alike open_ = (Alike-value alike, Open-value plain open_)
