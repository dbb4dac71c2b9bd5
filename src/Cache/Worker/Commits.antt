-- ===== src/Cache/Worker/Commits.antt =====
-- Which records a commit of the worker covers.
use realtime_analytics_pipel.Prelude.{List}
use realtime_analytics_pipel.Cache.Worker.{Worker}
