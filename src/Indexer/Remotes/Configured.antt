-- ===== src/Indexer/Remotes/Configured.antt =====
-- `ParseConfig` of indexer/internal/remotes/remotes.go, with the constructors of the remotes that it
-- calls. The clients of the hosts are built by their libraries, which are parameters.
use depscloud.Base.{◌>>=◌, Result, List, Option, ok, err, errorf, [], if◌then◌else◌, list_eq}
use depscloud.Base.{nat_eq, none, not, option_eq, some, ◌&&◌, ◌==◌, ◌∷◌}
use depscloud.Indexer.Remotes.{Basic, Clone, GithubConfig, GitlabConfig}
use depscloud.Indexer.Remotes.Bitbucket.{BitbucketConfig}
use depscloud.Indexer.Remotes.Generic.{GenericConfig}
use depscloud.Base.Bytes.{Bytes}
use depscloud.Tracker.Alpha.Types.{key_eq}

-- What `config.Github` says of its client, beside what is listed.
pub record GithubAccount : Type 0 where
  pub config : GithubConfig
  pub base_url : Bytes
  pub upload_url : Bytes
  pub oauth2 : Option Bytes

-- `config.Gitlab`, with the token of `private`.
pub record GitlabAccount : Type 0 where
  pub config : GitlabConfig
  pub base_url : Bytes
  pub private : Option Bytes

-- `config.Bitbucket`, with its `basic`.
pub record BitbucketAccount : Type 0 where
  pub config : BitbucketConfig
  pub basic : Option Basic

-- `config.Static`
pub record StaticAccount : Type 0 where
  pub repository_urls : List Bytes
  pub clone : Option Clone

-- `config.Account`, any number of whose fields are set.
pub record Account : Type 0 where
  pub github : Option GithubAccount
  pub gitlab : Option GitlabAccount
  pub bitbucket : Option BitbucketAccount
  pub generic : Option GenericConfig
  pub static : Option StaticAccount

-- The libraries, with their clients. The token is the one of OAuth 2.
pub record Libraries (Github Gitlab Bitbucket : Type 0) : Type 0 where
  pub github_client : Option Bytes → Github
  pub enterprise_client : Bytes → Bytes → Option Bytes → Result Github
  pub gitlab_client : Bytes → Option Bytes → Result Gitlab
  pub bitbucket_client : Bytes → Bytes → Result Bitbucket

-- A remote by its constructor.
pub data Remote (Github Gitlab Bitbucket : Type 0) : Type 0 where
  generic_remote : GenericConfig → Remote Github Gitlab Bitbucket
  bitbucket_remote : Bitbucket → BitbucketConfig → Remote Github Gitlab Bitbucket
  github_remote : Github → GithubConfig → Remote Github Gitlab Bitbucket
  gitlab_remote : Gitlab → GitlabConfig → Remote Github Gitlab Bitbucket
  static_remote : StaticAccount → Remote Github Gitlab Bitbucket

module _ {Github Gitlab Bitbucket : Type 0} (libraries : Libraries Github Gitlab Bitbucket) where
  -- `NewGithubRemote`
  unfoldable pub new_github_remote : GithubAccount → Result (Remote Github Gitlab Bitbucket)
  new_github_remote account = do
    client ←
        if not (account.base_url == []) && not (account.upload_url == [])
        then libraries.enterprise_client account.base_url account.upload_url account.oauth2
        else ok (libraries.github_client account.oauth2)
    ok (github_remote client account.config)

  -- `NewGitlabRemote`
  unfoldable pub new_gitlab_remote : GitlabAccount → Result (Remote Github Gitlab Bitbucket)
  new_gitlab_remote account = do
    let base_url = if account.base_url == [] then none else some account.base_url
    client ← elim account.private [
      | some token ↦ libraries.gitlab_client token base_url
      | none ↦ err (errorf "no auth method provided")
    ]
    ok (gitlab_remote client account.config)

  -- `NewBitbucketRemote`
  unfoldable pub new_bitbucket_remote : BitbucketAccount → Result (Remote Github Gitlab Bitbucket)
  new_bitbucket_remote account = do
    client ← elim account.basic [
      | some basic ↦ libraries.bitbucket_client basic.username basic.password
      | none ↦ err (errorf "auth format not supported")
    ]
    ok (bitbucket_remote client account.config)

  -- One account: the first of its fields that is set, in this order.
  unfoldable pub remote_of : Account → Result (Remote Github Gitlab Bitbucket)
  unfolding new_github_remote new_gitlab_remote new_bitbucket_remote
  remote_of account = elim account.generic [
    | some generic ↦ ok (generic_remote generic)
    | none ↦ elim account.bitbucket [
      | some bitbucket ↦ new_bitbucket_remote bitbucket
      | none ↦ elim account.github [
        | some github ↦ new_github_remote github
        | none ↦ elim account.gitlab [
          | some gitlab ↦ new_gitlab_remote gitlab
          | none ↦ elim account.static [
            | some static ↦ ok (static_remote static)
            | none ↦ err (errorf "unrecognized account")
          ]
        ]
      ]
    ]
  ]

  -- `ParseConfig`, up to the composite remote: the first account with an error ends it.
  unfoldable pub parse_config : List Account → Result (List (Remote Github Gitlab Bitbucket))
  unfolding remote_of
  parse_config [] = ok []
  parse_config (account ∷ accounts) = do
    remote ← remote_of account
    remotes ← parse_config accounts
    ok (remote ∷ remotes)
