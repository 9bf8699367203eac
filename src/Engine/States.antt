-- ===== src/Engine/States.antt =====
-- src/engine.cpp: the engine's documents in files, plain and encrypted.
use shadow_se.Base.{
  ℕ, Bool, true, ◌≡◌, ap, ◌∙◌, refl, Option, none, some, List, [], All, ◌≤◌, length, map, Bytes,
}
use shadow_se.Document.{Document}
use shadow_se.Index.{all_documents, replace_all}
use shadow_se.Snapshot.{max_count}
use shadow_se.Snapshot.RoundTrip.{Fits, stored}
use shadow_se.Snapshot.Files.{
  Disk, FileFailure, Loaded, documents, not_loaded, save_snapshot, load_snapshot,
  save_snapshot-IsSaved,
}
use shadow_se.Vault.{Outcome, save_encrypted}
use shadow_se.Engine.{Engine, load_documents}

unfoldable pub save_state : Bool → Option ℕ → Bytes → Engine → Disk → Option FileFailure × Disk
save_state opens stops path e disk = save_snapshot opens stops path (all_documents e.index) disk

unfoldable pub documents_loaded : Loaded → Option (List Document)
documents_loaded (documents docs) = some docs
documents_loaded (not_loaded f) = none

unfoldable pub load_state : Bytes → Disk → Engine → Bool × Engine
unfolding documents_loaded
load_state path disk e = load_documents (documents_loaded (load_snapshot path disk)) e

-- `saveEncrypted`
unfoldable pub save_vault :
    (Bytes → Bytes → Option Bytes)
    → (Bytes → Bytes → Bytes → Bytes)
    → (Bytes → Bytes → Bytes → Option Bytes)
    → Bytes
    → Bytes
    → Bytes
    → Engine
    → Outcome Bytes
save_vault derive seal unseal password salt nonce e =
    save_encrypted derive seal unseal password salt nonce (all_documents e.index)

-- An engine that loads the state of another one, whose documents fit, has the index of these documents.
load_state-save_state :
    (path : Bytes) (e e' : Engine) (disk : Disk)
    → All Fits (all_documents e.index)
    → length (all_documents e.index) ≤ max_count
    → load_state path (save_state true none path e disk).1 e'
      ≡ (true, record e' { index = replace_all (map stored (all_documents e.index)) e'.index })
unfolding save_state load_state load_documents
load_state-save_state path e e' disk fits few =
    let back =
      (save_snapshot-IsSaved true none path (all_documents e.index) disk [] fits few tt).1 in
    ap (λ (l : Loaded). load_documents (documents_loaded l) e') back
    ∙ unfold documents_loaded in refl
