-- ===== src/Web/ContainerLogs/Tests.antt =====
-- The viewer, on a concrete session.
use core_dashboard.Prelude.{
  ◌+◌, ◌≤◌, ◌≡◌, refl, inl, true, false, some, List, [], ◌∷◌, length, codes, arith,
}
use core_dashboard.Shared.Events.{LogLine, stdout}
use core_dashboard.Logs.Session.{LogSessionOptions, new, Event, pushed, settled, run}
use core_dashboard.Logs.Session.Measures.{accepted}
use core_dashboard.Web.ContainerLogs.{
  ContainerLogs, max_lines, change, run_effect, clean_up, subscribed, on_batches,
}
use core_dashboard.Web.ContainerLogs
use core_dashboard.Web.ContainerLogs.Account.{emitted, on_batches-run}

abbrev small : LogSessionOptions
small = record {
  container = "web";
  batch_size = 1;
  max_queue = 2;
  high_water = 2;
  low_water = 1;
  ack_timeout_ms = 10000;
}

abbrev line : LogLine
line = record { ts = []; source = stdout; text = codes "x" }

-- The first line goes out, two wait, and the fourth takes the place of one.
abbrev busy : List Event
busy = pushed line ∷ pushed line ∷ pushed line ∷ pushed line ∷ settled ∷ []

abbrev viewer : ContainerLogs
viewer = record ContainerLogs.new { listening = some "web" }

on_batches-run_example :
    ((on_batches (emitted (run busy (new small)).effects) viewer).1
      ≡ length (emitted (run busy (new small)).effects))
    × (length (on_batches (emitted (run busy (new small)).effects) viewer).0.buffer.lines
        ≤ max_lines)
    × (length (accepted busy (new small))
        ≡ length (on_batches (emitted (run busy (new small)).effects) viewer).0.buffer.lines
          + (on_batches (emitted (run busy (new small)).effects) viewer).0.buffer.dropped
          + (run busy (new small)).dropped
          + length (run busy (new small)).queue)
on_batches-run_example = on_batches-run small busy viewer (omega arith) (inl refl) refl refl

-- The refusal of an earlier subscription is shown as the error of the container that is open now.
subscribed-change :
    let t =
      subscribed
        (some (record { ok = false; error = some "contenedor desconocido" }))
        (change true (some "db") viewer).0 in
    (t.listening ≡ some "db") × (t.error ≡ some "contenedor desconocido")
unfolding subscribed change run_effect clean_up
subscribed-change = (refl, refl)
