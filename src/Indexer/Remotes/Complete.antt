-- ===== src/Indexer/Remotes/Complete.antt =====
-- What the remotes of GitHub and GitLab list: indexer/internal/remotes/github.go and gitlab.go.
use depscloud.Base.Bytes.{Bytes}
