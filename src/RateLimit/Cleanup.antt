-- ===== src/RateLimit/Cleanup.antt =====
-- Runs with and without the cleanup of the limiter, purge.
use my_personal_cloud.Prelude.{ℕ, ◌≤◌, ◌≡◌, refl, sym, ap, ◌∙◌, ◌++◌, List, [], ◌∷◌, Text, arith}
use my_personal_cloud.RateLimit.{Limiter, new}
use my_personal_cloud.RateLimit.Window.{
  Event, request, sweep, InOrder, decisions, log_decisions, log_allow, noted, decisions_refine_log,
}

-- The run without its cleanups.
unfoldable pub without_sweeps : List Event → List Event
without_sweeps [] = []
without_sweeps (request ip t ∷ es) = request ip t ∷ without_sweeps es
without_sweeps (sweep t ∷ es) = without_sweeps es

InOrder-earlier : (now t : ℕ) (es : List Event) → now ≤ t → InOrder t es → InOrder now es
InOrder-earlier now t [] h o = tt
InOrder-earlier now t (e ∷ es) h o = (omega arith, o.1)

without_sweeps-InOrder :
    (now : ℕ) (es : List Event) → InOrder now es → InOrder now (without_sweeps es)
unfolding without_sweeps
without_sweeps-InOrder now [] o = tt
without_sweeps-InOrder now (request ip t ∷ es) o = (o.0, without_sweeps-InOrder t es o.1)
without_sweeps-InOrder now (sweep t ∷ es) o =
    InOrder-earlier now t (without_sweeps es) o.0 (without_sweeps-InOrder t es o.1)

log_decisions-without_sweeps :
    (limit window : ℕ) (log : List (Text × ℕ)) (es : List Event)
    → log_decisions limit window log (without_sweeps es) ≡ log_decisions limit window log es
unfolding log_decisions without_sweeps
log_decisions-without_sweeps limit window log [] = refl
log_decisions-without_sweeps limit window log (request ip t ∷ es) =
    let b = log_allow limit window log ip t in
    ap (λ bs. b ∷ bs) (log_decisions-without_sweeps limit window (log ++ noted b (ip, t)) es)
log_decisions-without_sweeps limit window log (sweep t ∷ es) =
    log_decisions-without_sweeps limit window log es

-- For any requests and runs of the cleanup in the order of the clock, the limiter gives the
-- requests the answers that it gives them when no cleanup ever runs.
pub cleanup_changes_no_decision :
    (limit window : ℕ) (es : List Event)
    → InOrder 0 es
    → decisions (new limit window) es ≡ decisions (new limit window) (without_sweeps es)
cleanup_changes_no_decision limit window es o =
    let l : Limiter = new limit window in
    decisions_refine_log limit window es o
    ∙ sym (log_decisions-without_sweeps l.limit l.window [] es)
    ∙ sym (decisions_refine_log limit window (without_sweeps es) (without_sweeps-InOrder 0 es o))
