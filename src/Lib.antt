-- ===== src/Lib.antt =====
-- core-dashboard: a control panel for the containers of a compose stack. The api
-- (apps/api/src, NestJS) watches Docker, streams states and logs to browsers over a WebSocket
-- namespace, restarts containers for operators, tells a bot of containers that go down, and
-- hands jobs to another service. The contracts that it shares with the web stand in
-- packages/shared/src.
--
-- How the parts interact: `ContainersService` turns Docker's events into updates; the gateway
-- sends each to the room of its service, and `AlertsService` listens to the same updates. The
-- gateway hands log subscriptions to `LogsService`, which finds the container through
-- `ContainersService`, reads Docker's stream through the frame parser and the line splitter, and
-- gives each line to a `LogSession` that drains to one socket. `ActionsService` restarts a
-- container that `ContainersService` knows. Every request passes `AuthGuard`, every socket the
-- middleware of the handshake, and both ask `TokenService` who it is. The web application
-- (apps/web/src, Next and React) keeps a session of its own, connects a socket with its token,
-- takes a snapshot, joins the rooms of its services and follows their updates and logs. Its page
-- shows the containers, and to operators and admins more: the restart button, the alerts, the queue
-- and the log of security events, for which the api asks other services.
--
-- Files and code:
--   Shared/Auth, Shared/Events: packages/shared/src/auth.ts, events.ts, alerts.ts.
--   Shared/Values: values of unknown type that a handler receives, and the patterns for names.
--   Shared/Fetch: requests to other services, as auth-proxy.service.ts, notify-bot.client.ts and
--     taskforge-client.service.ts make them.
--   Shared/Maps, Shared/Sorting: JavaScript's maps, sets and `sort`.
--   Logs/Session: apps/api/src/logs/log-session.ts (LogSession).
--   Logs/Frames, Logs/Lines: apps/api/src/logs/docker-frames.ts (DockerFrameParser,
--     LogLineSplitter, parseDockerLine).
--   Logs/Service: apps/api/src/logs/logs.service.ts (LogsService); Logs/Pipeline is its
--     openDockerStream.
--   Actions: apps/api/src/actions (ActionsService.restartContainer, ActionsController.restart);
--     Actions/Endpoint puts auth.guard.ts in front of it.
--   Alerts: apps/api/src/alerts/alerts.service.ts; Alerts/Poller: alerts-poller.service.ts;
--     Alerts/Settings: alerts.controller.ts, alerts-feed.controller.ts, notify-bot.client.ts.
--   Auth: apps/api/src/auth (TokenService, AuthGuard, the middleware, AuthController and
--     AuthProxyService).
--   Containers: apps/api/src/containers/containers.service.ts; Containers/Stream is its
--     subscription to Docker's events.
--   Gateway: apps/api/src/gateway/live.gateway.ts (LiveGateway).
--   Fanout: the listeners that the gateway and the alerts give to `ContainersService.onUpdate`.
--   Jobs: apps/api/src/jobs/jobs.service.ts; Jobs/Token: taskforge-client.service.ts.
--   Metrics: apps/api/src/metrics (metrics.service.ts, metrics.controller.ts); Metrics/Prometheus:
--     prometheus.service.ts.
--   Audit: apps/api/src/audit, security-audit, retention and taskforge-status; Health:
--     apps/api/src/health; Routes: the roles that the controllers of apps/api/src require.
--   Requests: the requests from the web's clients (apps/web/src/lib/alerts, lib/security-audit)
--     through the api's handlers to the other services.
--   Web/Live: apps/web/src/lib/live/state.ts and logs-buffer.ts.
--   Web/Sync: apps/web/src/lib/live/live-provider.tsx, with the gateway at the other end;
--     Web/Sync/Socket: the sockets that it opens for the session's tokens.
--   Web/ContainerLogs: apps/web/src/lib/live/use-container-logs.ts, after a session of the api.
--   Web/Session: apps/web/src/lib/auth (auth-provider.tsx, token-storage.ts, api.ts).
--   Web/Login, Web/RestartButton: apps/web/src/components/login-modal.tsx, restart-button.tsx.
--   Web/Pager, Web/Charts: components/alerts-feed-panel.tsx, security-audit-panel.tsx and
--     metrics-panel.tsx of apps/web/src; Web/Client: the reading of the api's answers in lib.
--   Web/View: what a component renders, as a list of texts and controls; Web/Query: what
--     react-query gives to a panel, and what the panels render of it alike.
--   Web/Dashboard: apps/web/src/components/live-dashboard.tsx, the whole page, of the components
--     Web/Badges (dependencies-badge.tsx, connection-badge.tsx, locale-switcher.tsx), Web/UserMenu
--     (user-menu.tsx), Web/ServiceCard (service-card.tsx), Web/ContainerPanel
--     (container-panel.tsx), Web/MetricsPanel (metrics-panel.tsx), Web/LogViewer
--     (log-viewer.tsx), Web/AlertsFeed
--     (alerts-feed-panel.tsx), Web/SecurityLog (security-audit-panel.tsx) and Web/QueueStatus
--     (taskforge-status-panel.tsx).
--   Web/Format: apps/web/src/lib/metrics/format.ts.
--   Web/Locale: apps/web/src/i18n.
-- A module of definitions has its theorems in child modules, and its tests in Tests.
--
-- How the code is modelled: a service's fields are a record, and a method is a function from the
-- record to the record and what it asks of others. An `await` ends one step and begins another,
-- so that the steps of several calls can be interleaved; timers and answers are events, and so
-- are the clicks and effects of a component of the web, whose state is what its hooks keep. The
-- clock, the environment and what Docker, the database, taskforge, the bot and the JWT library
-- answer are arguments. A string is a native string where it is only compared or joined, and a
-- list of UTF-16 code units where the code walks it; numbers are natural numbers, as times and
-- counts are, and a difference that the code would find negative is 0, which the tests on it do
-- not tell apart. A time is its number of milliseconds.
--
-- Bounds and fuel: the frame parser's loop runs on fuel, the length of the buffer, which is
-- enough since every round takes a frame of at least eight bytes off it. All other loops are
-- structural. The limits are those of the code: 3 sessions for a socket, 50 rooms for a request,
-- 10 restarts in five minutes and one for a container in thirty seconds, a minute between two
-- alerts, 20 items for a poll, 20 steps for a job.
--
-- Not modelled: the adapter for Redis, Nest's modules, decorators and schedules, and the
-- database's schema, which are glue to libraries; the format of a share of the cores, which
-- computes with fractions. Of a component of the web its layout, its classes where they do not
-- depend on the state, and the drawing of its charts are left out. What a database does under a
-- unique key (an update, an insertion that skips duplicates) is written out as documented. How
-- `URLSearchParams` encodes its pairs, the order of `localeCompare`, `JSON.parse`, `Date.parse`
-- and `Number` are parameters or arguments.
pub mod Prelude
pub mod Shared
pub mod Logs
pub mod Actions
pub mod Alerts
pub mod Audit
pub mod Auth
pub mod Containers
pub mod Gateway
pub mod Jobs
pub mod Metrics
pub mod Web
pub mod Requests
pub mod Health
pub mod Routes
pub mod Fanout
