-- ===== src/Web.antt =====
-- apps/web/src: the web application's own logic.
pub mod Live
pub mod Session
pub mod RestartButton
pub mod Login
pub mod Sync
pub mod Pager
pub mod Client
pub mod Charts
pub mod ContainerLogs
pub mod Locale
pub mod View
pub mod Query
pub mod AlertsFeed
pub mod SecurityLog
pub mod QueueStatus
pub mod Badges
pub mod ServiceCard
pub mod LogViewer
pub mod Format
pub mod MetricsPanel
pub mod ContainerPanel
pub mod UserMenu
pub mod Dashboard
