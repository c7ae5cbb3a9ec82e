-- ===== src/Escalation/Serving/Counted.antt =====
-- The counts that a sweep answers with are those of its appends.
use agroassure.Prelude.{
  ℕ, suc, ◌+◌, ◌*◌, Bool, true, false, Option, none, some, List, [], ◌∷◌, ◌++◌, ◌≡◌, refl, ◌∙◌,
  arith, length, if◌then◌else◌, Text, codes,
}
use agroassure.Types.{open_status, status_eq}
use agroassure.FindingState.{default_sla, day_ms, should_escalate, escalation_reason}
use agroassure.Hashing.{Platform}
use agroassure.Hlc.{HlcState, hlc_next}
use agroassure.Events.{DeviceEvent}
use agroassure.Appender.{AppendRequest}
use agroassure.Appender.Appended.{Added}
use agroassure.Escalation.{
  DueFinding, Action, append_overdue, append_escalated, notify, as_check, notification,
  sweep_finding, sweep,
}
use agroassure.Escalation.Serving.{Draw, requests}

abbrev appends : List Action → ℕ
appends [] = 0
appends (append_overdue id at_time ∷ actions) = 1 + appends actions
appends (append_escalated id at_time to reason ∷ actions) = 1 + appends actions
appends (notify user_id f reason ∷ actions) = appends actions

appends-append : (xs ys : List Action) → appends (xs ++ ys) ≡ appends xs + appends ys
appends-append [] ys = omega arith
appends-append (append_overdue id at_time ∷ xs) ys =
    let rest = appends-append xs ys in omega (arith, rest)
appends-append (append_escalated id at_time to reason ∷ xs) ys =
    let rest = appends-append xs ys in omega (arith, rest)
appends-append (notify user_id f reason ∷ xs) ys = appends-append xs ys

pub length-requests :
    (iso : ℕ → Text) (draws : ℕ → Draw) (n : ℕ) (actions : List Action)
    → length (requests iso draws n actions) ≡ appends actions
length-requests iso draws n [] = refl
length-requests iso draws n (append_overdue id at_time ∷ actions) =
    let rest = length-requests iso draws (suc n) actions in ground (arith, rest)
length-requests iso draws n (append_escalated id at_time to reason ∷ actions) =
    let rest = length-requests iso draws (suc n) actions in ground (arith, rest)
length-requests iso draws n (notify user_id f reason ∷ actions) =
    length-requests iso draws (suc n) actions

pub length-Added :
    (p : Platform) (rs : List AppendRequest) (es old : List DeviceEvent) (clock last : HlcState)
    → Added p clock old rs es last
    → length es ≡ length rs
length-Added p [] [] old clock last h = refl
length-Added p [] (e ∷ es) old clock last h = absurd h
length-Added p (r ∷ rs) [] old clock last h = absurd h
length-Added p (r ∷ rs) (e ∷ es) old clock last h =
    let rest = length-Added p rs es (old ++ e ∷ []) (hlc_next clock r.now) last h.1 in
    ground (arith, rest)

appends-sweep_finding :
    (now : ℕ) (f : DueFinding)
    → appends (sweep_finding now f)
      ≡ (if status_eq f.status open_status then 1 else 0)
        + (if should_escalate (as_check f) now default_sla then 1 else 0)
unfolding sweep_finding
appends-sweep_finding now f =
    counted (status_eq f.status open_status) (should_escalate (as_check f) now default_sla)
      (escalation_reason f.severity (f.due_date * day_ms) now) (codes "desk_supervisor")
      f.supervisor_id
  where
    counted :
        (b c : Bool) (reason x : Text) (o : Option Text)
        → appends (
            (if b then append_overdue f.id now ∷ [] else [])
            ++ (if c then append_escalated f.id now x reason ∷ notification o f reason else []))
          ≡ (if b then 1 else 0) + (if c then 1 else 0)
    counted true true reason x none = refl
    counted true true reason x (some u) = refl
    counted true false reason x o = refl
    counted false true reason x none = refl
    counted false true reason x (some u) = refl
    counted false false reason x o = refl

pub appends-sweep :
    (now : ℕ) (fs : List DueFinding)
    → appends (sweep now fs).0 ≡ (sweep now fs).1.marked_overdue + (sweep now fs).1.escalated
unfolding sweep
appends-sweep now [] = refl
appends-sweep now (f ∷ fs) =
    let rest = appends-sweep now fs in
    let one = appends-sweep_finding now f in
    appends-append (sweep_finding now f) (sweep now fs).0 ∙ omega (arith, rest, one)
