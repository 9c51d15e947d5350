-- ===== src/Web/Charts/Stored.antt =====
-- From the table of rollups to the chart of a day or a week.
use core_dashboard.Prelude.{
  ℕ, ◌-◌, ◌*◌, ◌≡◌, ◌∙◌, refl, sym, subst, String, Bool, true, ◌&&◌, Option, none, List, map, any,
  arith, if◌then◌else◌, leb, ◌==◌, string_equality, number_equality, eq_iff, nat_beq_iff,
}
use core_dashboard.Metrics.{
  MetricKind, cpu, memory, network_rx, network_tx, same_kind, MetricRollup, MetricPoint, same_key,
  history_rows, get_history,
}
use core_dashboard.Metrics.Rollups.{IsUnique}
use core_dashboard.Web.Charts.{MetricTab, cpu_tab, ram_tab, net_tab, series_of, chart}
use core_dashboard.Web.Charts.Rows.{value_at, last_point, last_value, merge_series-IsChronological}
use core_dashboard.Web.Charts.Apart.{first_of, last_point-mine}

same_kind_eq : (a b : MetricKind) → same_kind a b ≡ true → a ≡ b
same_kind_eq cpu b h = ground arith
same_kind_eq memory b h = ground arith
same_kind_eq network_rx b h = ground arith
same_kind_eq network_tx b h = ground arith

same_kind_refl : (a : MetricKind) → same_kind a a ≡ true
same_kind_refl cpu = refl
same_kind_refl memory = refl
same_kind_refl network_rx = refl
same_kind_refl network_tx = refl

same_name : (a b name : String) → (a == name) ≡ true → (b == name) ≡ true → (a == b) ≡ true
same_name a b name h k = (eq_iff a b).1 ((eq_iff a name).0 h ∙ sym ((eq_iff b name).0 k))

same_metric :
    (a b kind : MetricKind)
    → same_kind a kind ≡ true
    → same_kind b kind ≡ true
    → same_kind a b ≡ true
same_metric a b kind h k =
    subst (λ c. same_kind a c ≡ true) (same_kind_eq a kind h ∙ sym (same_kind_eq b kind k))
      (same_kind_refl a)

and_left : (x y : Bool) → x && y ≡ true → x ≡ true
and_left x y h = ground arith

and_right : (x y : Bool) → x && y ≡ true → y ≡ true
and_right x y h = ground arith

and_join : (x y : Bool) → x ≡ true → y ≡ true → x && y ≡ true
and_join x y h k = ground arith

module _ {ℓ} {V : Type ℓ} where
  abbrev named : String → MetricRollup V → Bool
  named container row = row.container_name == container

  abbrev kinded : MetricKind → MetricRollup V → Bool
  kinded kind row = same_kind row.metric kind

  -- The value that the table holds under a key.
  unfoldable pub stored_value : String → MetricKind → ℕ → List (MetricRollup V) → Option V
  stored_value container kind t table = first_of (named container) (kinded kind) t table

  alike_of :
      (container : String) (kind : MetricKind) (a b : MetricRollup V)
      → named container a && kinded kind a ≡ true
      → named container b && kinded kind b ≡ true
      → a.start ≡ b.start
      → same_key a b ≡ true
  unfolding same_key
  alike_of container kind a b h k e =
      and_join (a.container_name == b.container_name && same_kind a.metric b.metric)
        (a.start == b.start)
        (and_join (a.container_name == b.container_name) (same_kind a.metric b.metric)
          (same_name a.container_name b.container_name container
            (and_left (named container a) (kinded kind a) h)
            (and_left (named container b) (kinded kind b) k))
          (same_metric a.metric b.metric kind (and_right (named container a) (kinded kind a) h)
            (and_right (named container b) (kinded kind b) k)))
        ((nat_beq_iff a.start b.start).1 e)

  last_point-get_history :
      (container : String) (kind : MetricKind) (hours now t : ℕ) (table : List (MetricRollup V))
      → IsUnique table
      → last_point t (get_history container kind hours now table) none
        ≡ (if leb (now - hours * 3600000) t then stored_value container kind t table else none)
  unfolding get_history history_rows stored_value
  last_point-get_history container kind hours now t table u =
      last_point-mine (named container) (kinded kind) (now - hours * 3600000)
        (alike_of container kind) t table u

  last_value-chart :
      (points : MetricKind → List (MetricPoint V)) (t : ℕ) (tab : MetricTab) (kind : MetricKind)
      → any (same_kind kind) (series_of tab) ≡ true
      → last_value t kind (map (λ k. (k, points k)) (series_of tab)) none
        ≡ last_point t (points kind) none
  unfolding series_of last_value
  last_value-chart points t cpu_tab cpu h = refl
  last_value-chart points t ram_tab memory h = refl
  last_value-chart points t net_tab network_rx h = refl
  last_value-chart points t net_tab network_tx h = refl
  last_value-chart points t cpu_tab memory h = absurd (ground arith)
  last_value-chart points t cpu_tab network_rx h = absurd (ground arith)
  last_value-chart points t cpu_tab network_tx h = absurd (ground arith)
  last_value-chart points t ram_tab cpu h = absurd (ground arith)
  last_value-chart points t ram_tab network_rx h = absurd (ground arith)
  last_value-chart points t ram_tab network_tx h = absurd (ground arith)
  last_value-chart points t net_tab cpu h = absurd (ground arith)
  last_value-chart points t net_tab memory h = absurd (ground arith)

  -- The chart of a container's history shows, for each kind of its tab and each time, the value
  -- that the table holds under that key, if the time is within the hours that were asked for, and
  -- nothing else; the keys of the table are unique.
  pub chart-get_history :
      (container : String) (tab : MetricTab) (kind : MetricKind) (hours now t : ℕ)
      (table : List (MetricRollup V))
      → IsUnique table
      → any (same_kind kind) (series_of tab) ≡ true
      → value_at t kind (chart (λ k. get_history container k hours now table) tab)
        ≡ (if leb (now - hours * 3600000) t then stored_value container kind t table else none)
  unfolding chart
  chart-get_history container tab kind hours now t table u h =
      let points : MetricKind → List (MetricPoint V) =
        λ k. get_history container k hours now table in
      (merge_series-IsChronological (map (λ k. (k, points k)) (series_of tab))).1 t kind
      ∙ last_value-chart points t tab kind h
      ∙ last_point-get_history container kind hours now t table u
