-- ===== src/Web/Charts/Requests.antt =====
-- What the charts ask for, and what the api's handlers take.
use core_dashboard.Prelude.{◌≡◌, refl, ap, true, some, arith, Text, string_equality}
use core_dashboard.Shared.Values.{natural, is_name}
use core_dashboard.Metrics.{
  MetricKind, cpu, memory, network_rx, network_tx, known, kind_of, parse_common, parse_positive_int,
  with_window, live, history,
}
use core_dashboard.Web.Charts.{
  MetricRange, one_hour, one_day, one_week, range_hours, Window, minutes, hours, window_of, name_of,
}

-- The api takes a request as it is meant.
abbrev pub IsTaken : Text → MetricKind → Window → Type 0
IsTaken container kind (minutes n) =
    live (some container) (some (name_of kind)) (some (natural n))
    ≡ some ((container, known kind), n)
IsTaken container kind (hours n) =
    history (some container) (some (name_of kind)) (some (natural n))
    ≡ some ((container, known kind), n)

kind_of-name_of : (kind : MetricKind) → kind_of (name_of kind) ≡ some (known kind)
unfolding kind_of name_of
kind_of-name_of cpu = refl
kind_of-name_of memory = refl
kind_of-name_of network_rx = refl
kind_of-name_of network_tx = refl

parse_common-name_of :
    (container : Text) (kind : MetricKind)
    → is_name 127 container ≡ true
    → parse_common (some container) (some (name_of kind)) ≡ some (container, known kind)
unfolding parse_common
parse_common-name_of container kind h = ground (arith, kind_of-name_of kind)

-- For a container whose name the api accepts, it takes every request of the charts: the container,
-- the kind and the window are those that were asked for.
pub window_of-IsTaken :
    (container : Text) (kind : MetricKind) (range : MetricRange)
    → is_name 127 container ≡ true
    → IsTaken container kind (window_of range)
unfolding live history window_of range_hours parse_positive_int
window_of-IsTaken container kind one_hour h =
    ap (λ common. with_window common (some 60)) (parse_common-name_of container kind h)
window_of-IsTaken container kind one_day h =
    ap (λ common. with_window common (some 24)) (parse_common-name_of container kind h)
window_of-IsTaken container kind one_week h =
    ap (λ common. with_window common (some 168)) (parse_common-name_of container kind h)
