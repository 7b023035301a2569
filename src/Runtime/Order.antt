-- ===== src/Runtime/Order.antt =====
-- internal/mcpserver/runtime.go: the order of the progress of a request, and its end.
use mcp_from_scratch.Protocol.Requests.{Notification}
use mcp_from_scratch.Runtime.{
  Floats, RequestRuntime, Situation, emit_notification, report_progress, finish_request_runtime,
  RuntimeCall, emits, reports, finishes, runtime_step, runtime_run,
}
use mcp_from_scratch.Base.{
  String, ◌≡◌, refl, ap, subst, ◌∙◌, inl, inr, Bool, true, false, Option, none, some, List, [], ◌∷◌,
  ◌++◌, arith, if◌then◌else◌, Bool-cases,
}

module _ {F : Type 0} (floats : Floats F) where
  abbrev outcome_of : RuntimeCall F → Option (RequestRuntime F) → Bool
  outcome_of (emits at n) o = (emit_notification floats at n o).0
  outcome_of (reports at progress total message) o =
      (report_progress floats at progress total message o).0
  outcome_of finishes o = false

  -- The progress of the reports that returned true, in their order.
  abbrev pub reported : List (RuntimeCall F) → Option (RequestRuntime F) → List F
  reported [] o = []
  reported (emits at n ∷ cs) o = reported cs (runtime_step floats (emits at n) o)
  reported (finishes ∷ cs) o = reported cs (runtime_step floats finishes o)
  reported (reports at progress total message ∷ cs) o =
      let rest = reported cs (runtime_step floats (reports at progress total message) o) in
      if (report_progress floats at progress total message o).0 then progress ∷ rest else rest

  -- Each value is a number that is not negative and not below the one before it.
  abbrev pub Ascending : F → List F → Type 0
  Ascending last [] = Unit
  Ascending last (progress ∷ rest) =
      (floats.less progress last ≡ false)
      × (floats.less progress floats.zero_float ≡ false)
      × (floats.is_nan progress ≡ false)
      × (floats.is_infinite progress ≡ false)
      × Ascending progress rest

  last_of : Option (RequestRuntime F) → F
  last_of none = floats.minus_infinity
  last_of (some r) = r.last

  last_of-emit :
      (at : Situation) (n : Notification) (o : Option (RequestRuntime F))
      → last_of (emit_notification floats at n o).1 ≡ last_of o
  unfolding emit_notification last_of
  last_of-emit at n none = refl
  last_of-emit at n (some r) = ground arith

  last_of-finish :
      (o : Option (RequestRuntime F)) → last_of (finish_request_runtime floats o) ≡ last_of o
  unfolding finish_request_runtime last_of
  last_of-finish none = refl
  last_of-finish (some r) = refl

  -- A report that is not delivered changes nothing.
  report-false :
      (at : Situation) (p t : F) (m : String) (o : Option (RequestRuntime F))
      → (report_progress floats at p t m o).0 ≡ false
      → (report_progress floats at p t m o).1 ≡ o
  unfolding report_progress
  report-false at p t m none h = refl
  report-false at p t m (some r) h = ground arith

  report-true :
      (at : Situation) (p t : F) (m : String) (o : Option (RequestRuntime F))
      → (report_progress floats at p t m o).0 ≡ true
      → (floats.less p (last_of o) ≡ false)
        × (floats.less p floats.zero_float ≡ false)
        × (floats.is_nan p ≡ false)
        × (floats.is_infinite p ≡ false)
        × (last_of (report_progress floats at p t m o).1 ≡ p)
  unfolding report_progress last_of
  report-true at p t m none h = cc
  report-true at p t m (some r) h = ground arith

  reports-Ascending_from :
      (cs : List (RuntimeCall F)) (o : Option (RequestRuntime F))
      → Ascending (last_of o) (reported cs o)
  unfolding runtime_step
  reports-Ascending_from [] o = tt
  reports-Ascending_from (emits at n ∷ cs) o =
      subst (λ l. Ascending l (reported cs (emit_notification floats at n o).1))
        (last_of-emit at n o) (reports-Ascending_from cs (emit_notification floats at n o).1)
  reports-Ascending_from (finishes ∷ cs) o =
      subst (λ l. Ascending l (reported cs (finish_request_runtime floats o))) (last_of-finish o)
        (reports-Ascending_from cs (finish_request_runtime floats o))
  reports-Ascending_from (reports at p t m ∷ cs) o =
      elim (Bool-cases (report_progress floats at p t m o).0) [
        | inl sent ↦
            let (high, whole, real, finite, now) = report-true at p t m o sent in
            rw sent (
              high,
              whole,
              real,
              finite,
              subst (λ l. Ascending l (reported cs (report_progress floats at p t m o).1)) now
                  (reports-Ascending_from cs (report_progress floats at p t m o).1),
            )
        | inr silent ↦ rw silent (
            subst (λ l. Ascending l (reported cs (report_progress floats at p t m o).1))
              (ap last_of (report-false at p t m o silent))
              (reports-Ascending_from cs (report_progress floats at p t m o).1))
      ]

  -- Whatever a request emits and reports and whenever it ends, the progress that is reported for it
  -- with success is finite, not negative, and from the last value on never falls.
  pub reports-Ascending :
      (cs : List (RuntimeCall F)) (r : RequestRuntime F) → Ascending r.last (reported cs (some r))
  unfolding last_of
  reports-Ascending cs r = reports-Ascending_from cs (some r)

  abbrev pub delivered_by : Option (RequestRuntime F) → List Notification
  delivered_by none = []
  delivered_by (some r) = r.delivered

  abbrev Over : Option (RequestRuntime F) → Type 0
  Over none = Unit {0}
  Over (some r) = r.done ≡ true

  step-Over :
      (c : RuntimeCall F) (o : Option (RequestRuntime F))
      → Over o
      → Over (runtime_step floats c o)
        × (delivered_by (runtime_step floats c o) ≡ delivered_by o)
        × (outcome_of c o ≡ false)
  unfolding runtime_step emit_notification report_progress finish_request_runtime
  step-Over (emits at n) none h = (tt, refl, refl)
  step-Over (reports at p t m) none h = (tt, refl, refl)
  step-Over finishes none h = (tt, refl, refl)
  step-Over (emits at n) (some r) h = ground arith
  step-Over (reports at p t m) (some r) h = ground arith
  step-Over finishes (some r) h = (refl, refl, refl)

  run-Over :
      (cs : List (RuntimeCall F)) (o : Option (RequestRuntime F))
      → Over o
      → delivered_by (runtime_run floats cs o) ≡ delivered_by o
  unfolding runtime_run
  run-Over [] o h = refl
  run-Over (c ∷ cs) o h =
      run-Over cs (runtime_step floats c o) (step-Over c o h).0 ∙ (step-Over c o h).1

  run-append :
      (before after : List (RuntimeCall F)) (o : Option (RequestRuntime F))
      → runtime_run floats (before ++ after) o
        ≡ runtime_run floats after (runtime_run floats before o)
  unfolding runtime_run
  run-append [] after o = refl
  run-append (c ∷ cs) after o = run-append cs after (runtime_step floats c o)

  Over-finish : (o : Option (RequestRuntime F)) → Over (finish_request_runtime floats o)
  unfolding finish_request_runtime
  Over-finish none = tt
  Over-finish (some r) = refl

  delivered_by-finish :
      (o : Option (RequestRuntime F))
      → delivered_by (finish_request_runtime floats o) ≡ delivered_by o
  unfolding finish_request_runtime
  delivered_by-finish none = refl
  delivered_by-finish (some r) = refl

  -- What is emitted and reported after the end of a request is not delivered: the transport gets
  -- what it got before the end, whatever calls come later.
  pub finished_is_silent :
      (before after : List (RuntimeCall F)) (o : Option (RequestRuntime F))
      → delivered_by (runtime_run floats (before ++ finishes ∷ after) o)
        ≡ delivered_by (runtime_run floats before o)
  unfolding runtime_run runtime_step
  finished_is_silent before after o =
      let ended = runtime_run floats before o in
      ap delivered_by (run-append before (finishes ∷ after) o)
      ∙ run-Over after (finish_request_runtime floats ended) (Over-finish ended)
      ∙ delivered_by-finish ended
