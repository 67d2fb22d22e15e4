-- ===== src/Sessions/Store.antt =====
-- The store file of pkg/adapters/providersession/store.go. What the path holds is a value; JSON
-- and the file system are the content that they keep, and a write that fails leaves it alone.
use Prim.Native.String
use Prim.Native.String.{String}
use openlinker_agent_node.Base.{
  ℕ, ◌*◌, Bool, true, false, ◌&&◌, ◌||◌, not, [], Option, none, some, ltb, if◌then◌else◌,
  trim_space,
}
use openlinker_agent_node.Sessions.{Sessions}

pub record File : Type 0 where
  pub regular : Bool  -- and no symbolic link
  pub private : Bool  -- no permission for group or others
  pub owned : Bool
  pub size : ℕ
  pub content : Option Sessions  -- none where it is not JSON or has no map

abbrev pub max_store_bytes : ℕ
max_store_bytes = 8 * 1024 * 1024

abbrev pub is_safe : File → Bool
is_safe f = f.regular && f.private && f.owned

abbrev pub sessions_or_empty : Option Sessions → Sessions
sessions_or_empty none = []
sessions_or_empty (some s) = s

-- readStore; `none` is a path that cannot be opened
unfoldable pub read_store : Option File → Sessions
read_store none = []
read_store (some f) =
    if not (is_safe f) || ltb max_store_bytes f.size then [] else sessions_or_empty f.content

abbrev pub unsafe_target : Option File → Bool
unsafe_target none = false
unsafe_target (some f) = not (is_safe f)

-- `encoded_size` is the length of the marshalled store, `disk` whether every step on the file
-- system succeeds
module _ (encoded_size : Sessions → ℕ) where
  -- writeStore, and whether it returned no error
  unfoldable pub write_store : (disk : Bool) → Sessions → Option File → Bool × Option File
  write_store disk s file =
      if unsafe_target file || ltb max_store_bytes (encoded_size s) || not disk
      then (false, file)
      else (
        true,
        some (record {
          regular = true;
          private = true;
          owned = true;
          size = encoded_size s;
          content = some s;
        }),
      )

  -- Update; `edit` gives none where the file stays as it is
  unfoldable pub update :
      (disk : Bool) → (Sessions → Option Sessions) → Option File → Bool × Option File
  update disk edit file = elim (edit (read_store file)) [
    | none ↦ (true, file)
    | some s ↦ write_store disk s file
  ]

module _ (sha256 clean : String → String) where
  -- Key
  abbrev pub store_key : (provider workspace session_key : String) → String
  store_key provider workspace session_key = sha256 (
      String.◌++◌ (trim_space provider) (
        String.◌++◌ "\0"
          (String.◌++◌ (clean workspace) (String.◌++◌ "\0" (trim_space session_key)))))
