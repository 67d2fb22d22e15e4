-- ===== src/Skills.antt =====
-- Skill packages: pkg/adapters/skillpackages. The data that its files share.
pub mod Paths
pub mod Disk
pub mod Decode
pub mod Materialize
pub mod Recovery
pub mod Load
pub mod Instructions
pub mod Selection
mod Tests
use openlinker_agent_node.Base.{ℕ, String, List}

-- Version, Snapshot, Contents, Package and Cache; a map of files lists its entries in the order of
-- a `range` loop
pub record Version : Type 0 where
  pub binding_id : String
  pub package_id : String
  pub version_id : String
  pub version : String
  pub digest : String
  pub payload : String

pub record Snapshot : Type 0 where
  pub schema : ℕ
  pub bundles : List Version

pub record Contents : Type 0 where
  pub required_commands : List String
  pub name : String
  pub description : String
  pub files : List (String × String)
  pub capability_ids : List String
  pub providers : List String

pub record Package : Type 0 where
  pub name : String
  pub instructions : String
  pub directory : String
  pub files : List String

pub record Cache : Type 0 where
  pub directory : String
  pub group_id : ℕ
