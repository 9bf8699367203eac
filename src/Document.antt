-- ===== src/Document.antt =====
-- include/shadowse/document.hpp
use shadow_se.Base.{ℕ, Bool, true, false, Bytes}

pub data SourceType : Type 0 where
  clear_web onion : SourceType

pub record Document : Type 0 where
  pub id : ℕ
  pub url : Bytes
  pub title : Bytes
  pub snippet : Bytes
  pub content : Bytes
  pub source : SourceType
  pub depth : ℕ

unfoldable pub is_onion_source : SourceType → Bool
is_onion_source clear_web = false
is_onion_source onion = true

unfoldable pub is_onion : Document → Bool
unfolding is_onion_source
is_onion d = is_onion_source d.source
