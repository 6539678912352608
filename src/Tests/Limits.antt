-- ===== src/Tests/Limits.antt =====
-- Runs of the limiter.
use my_personal_cloud.Prelude.{
  ◌≤◌, ◌++◌, ◌≡◌, refl, true, false, [], ◌∷◌, codes, Text, List, length, filter, arith, ◌==◌,
}
use my_personal_cloud.GoPath.{trim_space, trim_left, trim_right, is_space}
use my_personal_cloud.RateLimit.{
  new, allow, purge, times_at, set_times, drop_stale, last_time, real_ip, before_comma, split_host,
  index, last_index, bracketed_host,
}
use my_personal_cloud.RateLimit.Window.{
  Event, request, sweep, decisions, log_decisions, admitted, times_of, InOrder,
  decisions_refine_log,
}
use my_personal_cloud.RateLimit.Cleanup.{without_sweeps, cleanup_changes_no_decision}
use my_personal_cloud.RateLimit.Recovery.{refused_client_recovers}
use my_personal_cloud.RateLimit.Bound.{within, admitted-le-limit}

abbrev ip : Text
ip = codes "10.0.0.1"

-- Two requests fill the window, a third is refused, a fourth comes when the first has left it.
abbrev events : List Event
events = request ip 1 ∷ request ip 4 ∷ request ip 9 ∷ sweep 10 ∷ request ip 12 ∷ []

events-InOrder : InOrder 0 events
events-InOrder = (omega arith, (omega arith, (omega arith, (omega arith, (omega arith, tt)))))

decisions_refine_log_example :
    decisions (new 2 10) events ≡ log_decisions (new 2 10).limit (new 2 10).window [] events
decisions_refine_log_example = decisions_refine_log 2 10 events events-InOrder

admitted-le-limit_example :
    length (filter (within (new 2 10).window 9) (times_of ip (admitted (new 2 10) events))) ≤ 2
admitted-le-limit_example = admitted-le-limit 2 10 events events-InOrder ip 9

cleanup_changes_no_decision_example :
    decisions (new 2 10) events ≡ decisions (new 2 10) (without_sweeps events)
cleanup_changes_no_decision_example = cleanup_changes_no_decision 2 10 events events-InOrder

-- The request at 3 is refused; the one at 11 comes a window after the only one let through.
abbrev burst : List Event
burst = request ip 1 ∷ request ip 3 ∷ []

refused_client_recovers_example :
    decisions (new 1 10) (burst ++ request ip 11 ∷ []) ≡ decisions (new 1 10) burst ++ true ∷ []
unfolding admitted allow new times_at times_of set_times ◌==◌
refused_client_recovers_example =
    refused_client_recovers 1 10 burst ip 11 (omega arith)
      (omega arith, (omega arith, (omega arith, tt))) (omega arith, tt)

-- The third request is refused, and the fourth comes when the first has left the window.
decisions_run : decisions (new 2 10) events ≡ true ∷ true ∷ false ∷ true ∷ []
unfolding decisions allow purge new times_at set_times drop_stale last_time ◌==◌
decisions_run = refl

real_ip_run : real_ip (codes " 1.2.3.4 , 5.6.7.8") [] (codes "[::1]:80") ≡ codes "1.2.3.4"
unfolding real_ip before_comma trim_space trim_left trim_right is_space ◌==◌
real_ip_run = refl

remote_run : real_ip [] [] (codes "[::1]:80") ≡ codes "::1"
unfolding real_ip before_comma trim_space trim_left trim_right is_space split_host last_index index
    bracketed_host ◌==◌
remote_run = refl
