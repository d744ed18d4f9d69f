-- ===== src/Caller.antt =====
-- The calling process as the port headers give it: mofs_get_caller_user and mofs_is_caller_in_group of
-- src/port/include, which every platform implements for itself. Neither changes a block.
use mofs.Base.{ℕ, Bool}
use mofs.Base.Run.{Cmd, Ends}
use mofs.Core.{Superblock}
use mofs.Store
use mofs.Store.{Store}

-- `mofs_user_ctx_t`
pub record User : Type 0 where
  pub uid : ℕ
  pub gid : ℕ
  pub valid : Bool

pub record Caller (sb : Superblock) (store : Store sb) : Type 0 where
  pub get_caller_user : Cmd store.S User
  pub is_caller_in_group : ℕ → Cmd store.S Bool
  pub user_lem :
      (s : store.S)
      → store.IsSound s
      → Ends
          (λ _ t. Store.Unseen store.IsSound store.content s t)
          (λ _ t. Store.Unseen store.IsSound store.content s t)
          (get_caller_user s)
  pub group_lem :
      (g : ℕ) (s : store.S)
      → store.IsSound s
      → Ends
          (λ _ t. Store.Unseen store.IsSound store.content s t)
          (λ _ t. Store.Unseen store.IsSound store.content s t)
          (is_caller_in_group g s)
